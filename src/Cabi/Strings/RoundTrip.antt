-- ===== src/Cabi/Strings/RoundTrip.antt =====
-- Strings of Latin-1 code units stored as latin1+utf16, and strings stored as utf16, are loaded back.
use polyengine.Base.{
  ℕ, suc, ◌+◌, ◌-◌, ◌*◌, ◌/◌, ◌%◌, ◌^◌, ◌==◌, ==_iff, ◌≤◌, ◌≡◌, inl, inr, refl, sym, ap, ap₂, ◌∙◌,
  false, [], ◌∷◌, ◌++◌, some, ok, le→leb, lt→ltb, Returns, length, arith,
}
use polyengine.Cabi.Types.{PtrType}
use polyengine.Cabi.Layout.{align_to}
use polyengine.Cabi.Layout.Align.{align_to-aligned}
use polyengine.Cabi.Memory.{Memory, set_byte, trap_if_range_exceeds_memory}
use polyengine.Cabi.Memory.RoundTrip.{SameInside}
use polyengine.Cabi.Float.{Floats}
use polyengine.Cabi.Value.{Host}
use polyengine.Cabi.Access.{HostCx}
use polyengine.Cabi.Bulk.{bytes_of}
use polyengine.Cabi.Lists.{allocate}
use polyengine.Cabi.Store.GuestLists.{not_ltb, not_unequal}
use polyengine.Cabi.Strings.{
  Units, Codecs, latin1_utf16, utf16, max_string_byte_length, utf16_tag, latin1_decode,
  encode_units, encode_utf16_le, read_bytes, put_bytes, write_bytes, string_range, decode, decoded,
  load_string_from_range, Encoding, latin_1, utf_16_le,
}
use polyengine.Cabi.Strings.Bytes.{
  IsLatin1, read_bytes-agree, read_bytes-put_bytes, length-encode_units,
}
use polyengine.Cabi.Strings.Storing.{
  set_byte_at, write_at, check_room, check_aligned, narrow, copy_latin1,
  store_string_to_latin1_or_utf16, store_string_copy_utf16, store_string_by,
  store_string_into_range,
}

module _ {fl : Floats} (host : Host fl) where
  abbrev pub with_bytes : HostCx host → (ℕ → ℕ) → HostCx host
  with_bytes cx byte = record cx { memory = record cx.memory { byte = byte } }

  -- The Latin-1 code units are copied, and what follows them goes on.
  pub copy_latin1-append :
      (c : Codecs) (src : Units) (cx : HostCx host) (ptr n : ℕ) (us vs : Units)
      → IsLatin1 us
      → copy_latin1 host c src cx ptr n (us ++ vs)
        ≡ copy_latin1 host c src
            (with_bytes cx (put_bytes cx.memory.byte (ptr + n) us))
            ptr
            (n + length us)
            vs
  unfolding copy_latin1 set_byte_at put_bytes IsLatin1
  copy_latin1-append c src cx ptr n [] vs latin =
      let same : n ≡ n + 0 = omega arith in ap (λ k. copy_latin1 host c src cx ptr k vs) same
  copy_latin1-append c src cx ptr n (u ∷ us) vs (small, latin) =
      let next = with_bytes cx (set_byte cx.memory.byte (ptr + n) u) in
      let ih = copy_latin1-append c src next ptr (n + 1) us vs latin in
      let place : ptr + (n + 1) ≡ ptr + n + 1 = omega arith in
      let count : n + 1 + length us ≡ n + suc (length us) = omega arith in
      rw (lt→ltb u 256 small) (
        ih
        ∙ ap₂
            (λ p k.
              copy_latin1 host c src (with_bytes cx (put_bytes next.memory.byte p us)) ptr k vs)
            place count)

tag_clear :
    (addr : PtrType) (n : ℕ) → n ≤ max_string_byte_length → (n / utf16_tag addr % 2 == 1) ≡ false
unfolding utf16_tag
tag_clear PtrType.i32 n h = ground arith
tag_clear PtrType.i64 n h = ground arith

append_nil : (us : Units) → us ++ [] ≡ us
append_nil [] = refl
append_nil (u ∷ us) = ap (λ xs. u ∷ xs) (append_nil us)

-- What is loaded from a memory that keeps the bytes of a string, where its range is so.
pub read_range :
    (c : Codecs) (kept : Memory) (alignment ptr n units : ℕ) (e : Encoding)
    → string_range c.string_encoding kept.addr_type units ≡ (alignment, n, e)
    → n ≤ max_string_byte_length
    → ptr % alignment ≡ 0
    → ptr + n ≤ kept.length
    → load_string_from_range c kept ptr units ≡ decode c e (read_bytes kept.byte ptr n)
unfolding load_string_from_range trap_if_range_exceeds_memory bytes_of
read_range c kept alignment ptr n units e range short aligned inside =
    rw
      (
        range,
        not_ltb max_string_byte_length n short,
        not_unequal (ptr % alignment) 0 aligned,
        not_ltb kept.length (ptr + n) inside,
        le→leb (ptr + n) kept.length inside,
      )
      refl

module _ {fl : Floats} (host : Host fl) where
  -- The guest's realloc gives room for so many bytes, at an even address.
  abbrev pub AllocatesBytes : HostCx host → ℕ → ℕ → HostCx host → Type 0
  AllocatesBytes cx n begin cx' =
      (allocate host cx 2 n ≡ ok (begin, cx')) × (begin % 2 ≡ 0) × (begin + n ≤ cx'.memory.length)

  copy_latin1-all :
      (c : Codecs) (src : Units) (cx : HostCx host) (ptr : ℕ)
      → IsLatin1 src
      → copy_latin1 host c src cx ptr 0 src
        ≡ ok ((ptr, length src), with_bytes host cx (put_bytes cx.memory.byte ptr src))
  unfolding copy_latin1 narrow
  copy_latin1-all c src cx ptr latin =
      let at : ptr + 0 ≡ ptr = omega arith in
      let all : 0 + length src ≡ length src = omega arith in
      ap (λ us. copy_latin1 host c src cx ptr 0 us) (sym (append_nil src))
      ∙ copy_latin1-append host c src cx ptr 0 src [] latin
      ∙ rw (at, all, not_ltb (length src) (length src) (omega arith)) refl

  -- Encoded as latin1+utf16, a well-formed string of Latin-1 code units that is not longer than strings
  -- may be is stored without an error, if the guest's realloc gives room for a byte a code unit at an
  -- even address: at that address, with the number of code units, and the host's state and the size of
  -- the memory are as realloc left them. The string is loaded from any memory that keeps these bytes.
  pub load_string_from_range-latin1 :
      (c : Codecs) (cx cx' : HostCx host) (src : Units) (begin : ℕ)
      → c.string_encoding ≡ latin1_utf16
      → IsLatin1 src
      → c.to_well_formed src ≡ src
      → length src ≤ max_string_byte_length
      → AllocatesBytes cx (length src) begin cx'
      → Returns
          (λ stored.
            (stored.0 ≡ (begin, length src))
            × (stored.1.memory.length ≡ cx'.memory.length)
            × (stored.1.memory.addr_type ≡ cx'.memory.addr_type)
            × (stored.1.state ≡ cx'.state)
            × ((kept : Memory)
                → SameInside stored.1.memory kept begin (length src)
                → load_string_from_range c kept begin (length src) ≡ ok src))
          (store_string_into_range host c cx src)
  unfolding store_string_into_range store_string_by store_string_to_latin1_or_utf16 check_aligned
      check_room trap_if_range_exceeds_memory SameInside string_range decode latin1_decode
  load_string_from_range-latin1 c cx cx' src begin encoding latin wf short (ea, aligned, inside) =
      let few = le→leb (length src) (2 ^ 32 - 1) (omega arith) in
      let fixed = sym (align_to-aligned begin 2 (inr (inl refl)) aligned) in
      (
        ((begin, length src), with_bytes host cx' (put_bytes cx'.memory.byte begin src)),
        ap (λ e. store_string_by host e c cx src) encoding
            ∙ rw
                (
                  few,
                  ea,
                  not_unequal begin (align_to begin 2) fixed,
                  not_ltb cx'.memory.length (begin + length src) inside,
                  wf,
                  copy_latin1-all c src cx' begin latin,
                )
                refl,
        (
          refl,
          refl,
          refl,
          refl,
          λ kept (len, addr, same).
              read_range c kept 2 begin (length src) (length src) latin_1
                (rw (encoding, tag_clear kept.addr_type (length src) short) refl) short aligned
                (omega (arith, len, inside))
              ∙ ap ok (
                  read_bytes-agree kept.byte (put_bytes cx'.memory.byte begin src) begin
                    (length src) same
                  ∙ read_bytes-put_bytes cx'.memory.byte begin src),
        ),
      )

  -- Encoded as utf16, a well-formed string whose bytes the platform decodes back, and whose bytes are
  -- not more than strings may have, is stored without an error, if the guest's realloc gives room for
  -- two bytes a code unit at an even address: at that address, with the number of code units, and the
  -- host's state is as realloc left it. The string is loaded from any memory that keeps these bytes.
  pub load_string_from_range-utf16 :
      (c : Codecs) (cx cx' : HostCx host) (src : Units) (begin : ℕ)
      → c.string_encoding ≡ utf16
      → c.to_well_formed src ≡ src
      → c.utf16_decode (encode_units src) ≡ some src
      → 2 * length src ≤ max_string_byte_length
      → AllocatesBytes cx (2 * length src) begin cx'
      → Returns
          (λ stored.
            (stored.0 ≡ (begin, length src))
            × (stored.1.state ≡ cx'.state)
            × ((kept : Memory)
                → SameInside stored.1.memory kept begin (2 * length src)
                → load_string_from_range c kept begin (length src) ≡ ok src))
          (store_string_into_range host c cx src)
  unfolding store_string_into_range store_string_by store_string_copy_utf16 check_aligned check_room
      trap_if_range_exceeds_memory SameInside string_range decode decoded write_at write_bytes
      encode_utf16_le
  load_string_from_range-utf16 c cx cx' src begin encoding wf decodes short (ea, aligned, inside) =
      let few = le→leb (2 * length src) (2 ^ 32 - 1) (omega arith) in
      let fixed = sym (align_to-aligned begin 2 (inr (inl refl)) aligned) in
      let size = length-encode_units src in
      (
        (
          (begin, length src),
          with_bytes host cx' (put_bytes cx'.memory.byte begin (encode_units src)),
        ),
        ap (λ e. store_string_by host e c cx src) encoding
            ∙ rw
                (
                  few,
                  ea,
                  not_unequal begin (align_to begin 2) fixed,
                  not_ltb cx'.memory.length (begin + 2 * length src) inside,
                  wf,
                  size,
                  (==_iff (2 * length src) (2 * length src)).1 refl,
                  le→leb (begin + 2 * length src) cx'.memory.length inside,
                )
                refl,
        (
          refl,
          refl,
          λ kept (len, addr, same).
              read_range c kept 2 begin (2 * length src) (length src) utf_16_le (rw encoding refl)
                short aligned (omega (arith, len, inside))
              ∙ ap (λ bs. decode c utf_16_le bs)
                  (read_bytes-agree kept.byte (put_bytes cx'.memory.byte begin (encode_units src))
                      begin (2 * length src) same
                    ∙ ap
                        (λ k.
                          read_bytes (put_bytes cx'.memory.byte begin (encode_units src)) begin k)
                        (sym size)
                    ∙ read_bytes-put_bytes cx'.memory.byte begin (encode_units src))
              ∙ rw decodes refl,
        ),
      )
