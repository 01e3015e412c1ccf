-- ===== src/Cabi/Strings/Storing.antt =====
-- runtime/src/cabi/strings.ts: how a string is stored, with the guest's realloc.
use polyengine.Base.{
  ℕ, zero, suc, ◌+◌, ◌*◌, ◌/◌, ◌==◌, not, List, [], ◌∷◌, Result, ok, ◌>>=◌, ◌>>◌, assert, trap_if,
  ltb, leb, if◌then◌else◌, length, bit_or,
}
use polyengine.Cabi.Layout.{ptr_size, align_to}
use polyengine.Cabi.Memory.{set_byte, store_ptr, trap_if_range_exceeds_memory}
use polyengine.Cabi.Float.{Floats}
use polyengine.Cabi.Value.{Host}
use polyengine.Cabi.Access.{HostCx}
use polyengine.Cabi.Lists.{realloc_i32_max, allocate, reallocate}
use polyengine.Cabi.Strings.{
  Units, Codecs, utf8, utf16, latin1_utf16, StringEncoding, realloc_misaligned, realloc_oob,
  utf16_tag, encode_utf16_le, write_bytes, skip,
}

-- The loop that widens `n` bytes to code units of two bytes, from the last one on.
unfoldable pub spread : (ℕ → ℕ) → ℕ → ℕ → ℕ → ℕ
spread byte ptr zero = byte
spread byte ptr (suc j) =
    spread (set_byte (set_byte byte (ptr + 2 * j) (byte (ptr + j))) (ptr + 2 * j + 1) 0) ptr j

module _ {fl : Floats} (host : Host fl) where
  abbrev pub Placed : Type 0
  Placed = Result ((ℕ × ℕ) × HostCx host)

  unfoldable pub set_byte_at : HostCx host → ℕ → ℕ → HostCx host
  set_byte_at cx i b = record cx {
    memory = record cx.memory { byte = set_byte cx.memory.byte i b };
  }

  unfoldable pub write_at : HostCx host → ℕ → List ℕ → Result (HostCx host)
  write_at cx ptr src = do
    memory ← write_bytes cx.memory ptr src
    ok (record cx { memory = memory })

  -- The checks of an address that realloc returned.
  unfoldable pub check_room : HostCx host → ℕ → ℕ → Result (Unit {0})
  check_room cx ptr n = trap_if_range_exceeds_memory cx.memory ptr n realloc_oob

  unfoldable pub check_aligned : ℕ → Result (Unit {0})
  check_aligned ptr = trap_if (not (ptr == align_to ptr 2)) realloc_misaligned

  unfoldable pub store_string_copy_utf16 : Codecs → HostCx host → Units → Placed
  store_string_copy_utf16 c cx src = do
    let n = 2 * length src
    assert (leb n realloc_i32_max) ""
    (ptr, cx') ← allocate host cx 2 n
    check_aligned ptr
    check_room cx' ptr n
    assert (n == length (encode_utf16_le c src)) ""
    cx'' ← write_at cx' ptr (encode_utf16_le c src)
    ok ((ptr, length src), cx'')

  -- After the first code unit, at `i`, that is not ASCII.
  unfoldable pub encode_utf8_from : Codecs → Units → HostCx host → ℕ → ℕ → Placed
  encode_utf8_from c src cx ptr i = do
    let worst = length src * 3
    let encoded = c.utf8_encode src
    assert (leb worst realloc_i32_max) ""
    (ptr', cx') ← reallocate host cx ptr (length src) 1 worst
    check_room cx' ptr' worst
    cx'' ← write_at cx' (ptr' + i) (skip i encoded)
    if ltb (length encoded) worst
        then (do
          (ptr'', cx''') ← reallocate host cx'' ptr' worst 1 (length encoded)
          check_room cx''' ptr'' (length encoded)
          ok ((ptr'', length encoded), cx'''))
        else ok ((ptr', length encoded), cx'')

  -- The loop of `storeStringToUtf8` over the code units that are left, from `i` on.
  unfoldable pub copy_ascii : Codecs → Units → HostCx host → ℕ → ℕ → Units → Placed
  copy_ascii c src cx ptr i [] = ok ((ptr, length src), cx)
  copy_ascii c src cx ptr i (u ∷ us) =
      let rest = copy_ascii c src (set_byte_at cx (ptr + i) u) ptr (i + 1) us in
      if ltb u 0x80 then rest else encode_utf8_from c src cx ptr i

  unfoldable pub store_string_to_utf8 : Codecs → HostCx host → Units → Placed
  store_string_to_utf8 c cx src = do
    assert (leb (length src) realloc_i32_max) ""
    (ptr, cx') ← allocate host cx 1 (length src)
    check_room cx' ptr (length src)
    copy_ascii c src cx' ptr 0 src

  -- A code unit that is not Latin-1 after `n` that are: all are widened.
  unfoldable pub widen : Codecs → Units → HostCx host → ℕ → ℕ → Placed
  widen c src cx ptr n = do
    let worst = 2 * length src
    let encoded = encode_utf16_le c (c.to_well_formed src)
    assert (leb worst realloc_i32_max) ""
    (ptr', cx') ← reallocate host cx ptr (length src) 2 worst
    check_aligned ptr'
    check_room cx' ptr' worst
    let spread_cx = record cx' {
      memory = record cx'.memory { byte = spread cx'.memory.byte ptr' n };
    }
    cx'' ← write_at spread_cx (ptr' + 2 * n) (skip (2 * n) encoded)
    let tagged = bit_or (length encoded / 2) (utf16_tag cx'.memory.addr_type)
    if ltb (length encoded) worst
        then (do
          (ptr'', cx''') ← reallocate host cx'' ptr' worst 2 (length encoded)
          check_aligned ptr''
          check_room cx''' ptr'' (length encoded)
          ok ((ptr'', tagged), cx'''))
        else ok ((ptr', tagged), cx'')

  -- All code units were Latin-1, and there were `n`.
  unfoldable pub narrow : Units → HostCx host → ℕ → ℕ → Placed
  narrow src cx ptr n =
      if ltb n (length src)
      then (do
        (ptr', cx') ← reallocate host cx ptr (length src) 2 n
        check_aligned ptr'
        check_room cx' ptr' n
        ok ((ptr', n), cx'))
      else ok ((ptr, n), cx)

  -- The loop of `storeStringToLatin1OrUtf16` over the code units that are left, after `n`.
  unfoldable pub copy_latin1 : Codecs → Units → HostCx host → ℕ → ℕ → Units → Placed
  copy_latin1 c src cx ptr n [] = narrow src cx ptr n
  copy_latin1 c src cx ptr n (u ∷ us) =
      let rest = copy_latin1 c src (set_byte_at cx (ptr + n) u) ptr (n + 1) us in
      if ltb u 256 then rest else widen c src cx ptr n

  unfoldable pub store_string_to_latin1_or_utf16 : Codecs → HostCx host → Units → Placed
  store_string_to_latin1_or_utf16 c cx src = do
    assert (leb (length src) realloc_i32_max) ""
    (ptr, cx') ← allocate host cx 2 (length src)
    check_aligned ptr
    check_room cx' ptr (length src)
    copy_latin1 c src cx' ptr 0 (c.to_well_formed src)

  unfoldable pub store_string_by : StringEncoding → Codecs → HostCx host → Units → Placed
  store_string_by utf8 c cx src = store_string_to_utf8 c cx src
  store_string_by utf16 c cx src = store_string_copy_utf16 c cx src
  store_string_by latin1_utf16 c cx src = store_string_to_latin1_or_utf16 c cx src

  unfoldable pub store_string_into_range : Codecs → HostCx host → Units → Placed
  store_string_into_range c cx src = store_string_by c.string_encoding c cx src

  unfoldable pub store_string : Codecs → HostCx host → Units → ℕ → Result (HostCx host)
  store_string c cx src ptr = do
    ((begin, tagged_code_units), cx') ← store_string_into_range c cx src
    memory ← store_ptr cx'.memory begin ptr
    memory' ← store_ptr memory tagged_code_units (ptr + ptr_size memory.addr_type)
    ok (record cx' { memory = memory' })
