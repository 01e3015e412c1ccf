-- ===== src/Cabi/Strings.antt =====
-- runtime/src/cabi/strings.ts: strings in linear memory. A string is the list of its code units. The
-- platform's TextEncoder, TextDecoder and `toWellFormed` are the record `Codecs`.
pub mod Bytes
pub mod Placing
pub mod RoundTrip
pub mod Storing
pub mod Utf8
mod Tests
pub mod Widening
use polyengine.Base.{
  ℕ, zero, suc, ◌+◌, ◌-◌, ◌*◌, ◌/◌, ◌%◌, ◌^◌, ◌==◌, not, ◌&&◌, ◌||◌, Bool, true, false, Option,
  none, some, List, [], ◌∷◌, ◌++◌, String, Result, ok, err, trap, ◌>>=◌, ◌>>◌, assert, trap_if, ltb,
  leb, if◌then◌else◌, length,
}
use polyengine.Cabi.Types.{PtrType}
use polyengine.Cabi.Layout.{ptr_size, align_to}
use polyengine.Cabi.Memory.{Memory, load_ptr, store_ptr, set_byte, trap_if_range_exceeds_memory}
use polyengine.Cabi.Float.{Floats}
use polyengine.Cabi.Value.{Host}
use polyengine.Cabi.Access.{HostCx}
use polyengine.Cabi.Bulk.{bytes_of}
use polyengine.Cabi.Lists.{realloc_i32_max, allocate, reallocate}

abbrev pub Units : Type 0
Units = List ℕ

pub data StringEncoding : Type 0 where
  utf8 utf16 latin1_utf16 : StringEncoding

-- The encoding of the bytes of one string.
pub data Encoding : Type 0 where
  utf_8 utf_16_le latin_1 : Encoding

pub record Codecs : Type 0 where
  pub string_encoding : StringEncoding
  pub to_well_formed : Units → Units
  pub utf8_encode : Units → List ℕ
  pub utf8_decode : List ℕ → Option Units
  pub utf16_decode : List ℕ → Option Units

abbrev pub max_string_byte_length : ℕ
max_string_byte_length = 2 ^ 28 - 1

abbrev pub realloc_misaligned : String
realloc_misaligned = "realloc return: result not aligned"

abbrev pub realloc_oob : String
realloc_oob = "realloc return: beyond end of memory"

unfoldable pub utf16_tag : PtrType → ℕ
utf16_tag addr = 2 ^ (ptr_size addr * 8 - 1)

-- One code unit a byte.
unfoldable pub latin1_decode : List ℕ → Units
latin1_decode bytes = bytes

unfoldable pub encode_units : Units → List ℕ
encode_units [] = []
encode_units (u ∷ us) = u % 256 ∷ u / 256 % 256 ∷ encode_units us

unfoldable pub encode_utf16_le : Codecs → Units → List ℕ
encode_utf16_le c s = encode_units (c.to_well_formed s)

unfoldable pub read_bytes : (ℕ → ℕ) → ℕ → ℕ → List ℕ
read_bytes byte ptr zero = []
read_bytes byte ptr (suc n) = byte ptr ∷ read_bytes byte (ptr + 1) n

unfoldable pub put_bytes : (ℕ → ℕ) → ℕ → List ℕ → ℕ → ℕ
put_bytes byte ptr [] = byte
put_bytes byte ptr (b ∷ bs) = put_bytes (set_byte byte ptr b) (ptr + 1) bs

unfoldable pub write_bytes : Memory → ℕ → List ℕ → Result Memory
write_bytes mem ptr src = do
  assert (leb (ptr + length src) mem.length) "write OOB"
  ok (record mem { byte = put_bytes mem.byte ptr src })

unfoldable pub skip : ℕ → List ℕ → List ℕ
skip zero bs = bs
skip (suc n) [] = []
skip (suc n) (b ∷ bs) = skip n bs

-- How many bytes follow a first byte, and the bounds of the first of them.
unfoldable pub sequence_of : ℕ → Option (ℕ × ℕ × ℕ)
sequence_of b =
    if ltb b 0x80
    then some (0, 0x80, 0xbf)
    else if leb 0xc2 b && leb b 0xdf
    then some (1, 0x80, 0xbf)
    else if b == 0xe0
    then some (2, 0xa0, 0xbf)
    else if leb 0xe1 b && leb b 0xec
    then some (2, 0x80, 0xbf)
    else if b == 0xed
    then some (2, 0x80, 0x9f)
    else if leb 0xee b && leb b 0xef
    then some (2, 0x80, 0xbf)
    else if b == 0xf0
    then some (3, 0x90, 0xbf)
    else if leb 0xf1 b && leb b 0xf3
    then some (3, 0x80, 0xbf)
    else if b == 0xf4
    then some (3, 0x80, 0x8f)
    else none

-- The loop of `utf8ErrorMessage`, where so many bytes of a sequence are to follow, the next one within
-- these bounds.
unfoldable pub utf8_scan : Option (ℕ × ℕ × ℕ) → List ℕ → String
utf8_scan none bytes = "invalid utf-8"
utf8_scan (some (zero, lo, hi)) [] = "invalid utf-8"
utf8_scan (some (zero, lo, hi)) (b ∷ bs) = utf8_scan (sequence_of b) bs
utf8_scan (some (suc n, lo, hi)) [] = "incomplete utf-8 byte sequence"
utf8_scan (some (suc n, lo, hi)) (c ∷ bs) =
    let rest = utf8_scan (some (n, 0x80, 0xbf)) bs in
    if ltb c lo || ltb hi c then "invalid utf-8" else rest

unfoldable pub utf8_error_message : List ℕ → String
utf8_error_message bytes = utf8_scan (some (0, 0x80, 0xbf)) bytes

-- The alignment, the number of bytes and the encoding of a string with a tagged number of code units.
unfoldable pub string_range : StringEncoding → PtrType → ℕ → ℕ × ℕ × Encoding
string_range utf8 addr units = (1, units, utf_8)
string_range utf16 addr units = (2, 2 * units, utf_16_le)
string_range latin1_utf16 addr units =
    if units / utf16_tag addr % 2 == 1
    then (2, 2 * (units - utf16_tag addr), utf_16_le)
    else (2, units, latin_1)

unfoldable pub decoded : Option Units → String → Result Units
decoded none message = err (trap message)
decoded (some s) message = ok s

unfoldable pub decode : Codecs → Encoding → List ℕ → Result Units
decode c utf_8 bytes = decoded (c.utf8_decode bytes) (utf8_error_message bytes)
decode c utf_16_le bytes = decoded (c.utf16_decode bytes) "invalid string encoding"
decode c latin_1 bytes = ok (latin1_decode bytes)

unfoldable pub load_string_from_range : Codecs → Memory → ℕ → ℕ → Result Units
load_string_from_range c mem ptr tagged_code_units = do
  let (alignment, byte_length, encoding) =
      string_range c.string_encoding mem.addr_type tagged_code_units
  trap_if (ltb max_string_byte_length byte_length) "string too long"
  trap_if (not (ptr % alignment == 0)) "misaligned string pointer"
  trap_if_range_exceeds_memory mem ptr byte_length "string pointer/length out of bounds of memory"
  bytes ← bytes_of mem ptr byte_length
  decode c encoding (read_bytes bytes ptr byte_length)

unfoldable pub load_string : Codecs → Memory → ℕ → Result Units
load_string c mem ptr = do
  begin ← load_ptr mem ptr
  tagged_code_units ← load_ptr mem (ptr + ptr_size mem.addr_type)
  load_string_from_range c mem begin tagged_code_units
