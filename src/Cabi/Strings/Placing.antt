-- ===== src/Cabi/Strings/Placing.antt =====
-- A string whose address and number of code units are stored at a place of memory.
use polyengine.Base.{ℕ, ◌+◌, ◌*◌, ◌^◌, ◌≤◌, ◌<◌, ◌≡◌, ◌⊎◌, refl, ap, ok, Returns, length, arith}
use polyengine.Cabi.Types.{PtrType}
use polyengine.Cabi.Layout.{ptr_size}
use polyengine.Cabi.Memory.{Memory}
use polyengine.Cabi.Memory.Pointers.{pointers-kept, store_ptr-both}
use polyengine.Cabi.Memory.RoundTrip.{SameInside}
use polyengine.Cabi.Float.{Floats}
use polyengine.Cabi.Value.{Host}
use polyengine.Cabi.Access.{HostCx}
use polyengine.Cabi.Strings.{Units, Codecs, latin1_utf16, max_string_byte_length, load_string}
use polyengine.Cabi.Strings.Bytes.{IsLatin1}
use polyengine.Cabi.Strings.RoundTrip.{AllocatesBytes, load_string_from_range-latin1}
use polyengine.Cabi.Strings.Storing.{store_string}

few_units : (addr : PtrType) (n : ℕ) → n ≤ max_string_byte_length → n < 256 ^ ptr_size addr
few_units PtrType.i32 n h = omega arith
few_units PtrType.i64 n h = omega arith

module _ {fl : Floats} (host : Host fl) where
  -- Encoded as latin1+utf16, a well-formed string of Latin-1 code units that is not longer than strings
  -- may be is stored without an error at a place with room for two pointers, if the guest's realloc
  -- gives room for a byte a code unit apart from that place, at an even address that is a pointer.
  -- The host's state is as realloc left it, and the string is loaded from any memory that keeps the
  -- bytes of the two pointers and of the code units.
  pub load_string-store_string :
      (c : Codecs) (cx cx' : HostCx host) (src : Units) (ptr begin : ℕ)
      → c.string_encoding ≡ latin1_utf16
      → IsLatin1 src
      → c.to_well_formed src ≡ src
      → length src ≤ max_string_byte_length
      → AllocatesBytes host cx (length src) begin cx'
      → begin < 256 ^ ptr_size cx'.memory.addr_type
      → ptr + 2 * ptr_size cx'.memory.addr_type ≤ cx'.memory.length
      → (begin + length src ≤ ptr) ⊎ (ptr + 2 * ptr_size cx'.memory.addr_type ≤ begin)
      → Returns
          (λ stored.
            (stored.state ≡ cx'.state)
            × ((kept : Memory)
                → SameInside stored.memory kept ptr (2 * ptr_size cx'.memory.addr_type)
                → SameInside stored.memory kept begin (length src)
                → load_string c kept ptr ≡ ok src))
          (store_string host c cx src ptr)
  unfolding store_string load_string
  load_string-store_string c cx cx' src ptr begin encoding latin wf short room small inside apart =
      let n = length src in
      let size = ptr_size cx'.memory.addr_type in
      let (cx'', e, (s, len, addr, state, back)) =
        load_string_from_range-latin1 host c cx cx' src begin encoding latin wf short room in
      let (m₁, m₂, e₁, e₂, o, read) =
        store_ptr-both cx''.1.memory begin n ptr size (ap ptr_size addr) small
          (few_units cx'.memory.addr_type n short) (omega (arith, inside, len)) in
      (
        record cx''.1 { memory = m₂ },
        rw (e, s, e₁, e₂) refl,
        (
          state,
          λ kept k i.
              let (r₁, r₂) = read kept k in
              rw (r₁, r₂)
                (back kept (pointers-kept cx''.1.memory m₂ begin n ptr (2 * size) o apart kept i)),
        ),
      )
