-- ===== src/Cabi/Strings/Tests.antt =====
-- Strings in a memory of sixteen bytes, where the guest's realloc returns 8.
use polyengine.Base.{
  ◌-◌, ◌/◌, ◌%◌, ltb, if◌then◌else◌, ℕ, ◌+◌, ◌*◌, ◌^◌, ◌≡◌, refl, List, [], ◌∷◌, Option, none, some,
  ok, err, trap, Returns, arith,
}
use polyengine.Cabi.Layout.{align_to}
use polyengine.Cabi.Memory.{Memory, trap_if_range_exceeds_memory}
use polyengine.Cabi.Memory.RoundTrip.{SameInside}
use polyengine.Cabi.Access.{HostCx}
use polyengine.Cabi.Bulk.{bytes_of}
use polyengine.Cabi.Lists.{leaving, call_realloc, reallocate_by, reallocate, allocate}
use polyengine.Cabi.Store.Tests.{sample_host, start}
use polyengine.Cabi.Strings.{
  utf8, Units, Codecs, StringEncoding, utf16, latin1_utf16, utf16_tag, latin1_decode, encode_units,
  encode_utf16_le, read_bytes, put_bytes, write_bytes, skip, sequence_of, utf8_scan,
  utf8_error_message, string_range, decoded, decode, load_string_from_range, load_string,
}
use polyengine.Cabi.Strings.Bytes.{IsLatin1}
use polyengine.Cabi.Strings.Placing.{load_string-store_string}
use polyengine.Cabi.Strings.RoundTrip.{with_bytes}
use polyengine.Cabi.Strings.Storing.{
  spread, set_byte_at, write_at, check_room, check_aligned, store_string_copy_utf16,
  encode_utf8_from, copy_ascii, store_string_to_utf8, widen, narrow, copy_latin1,
  store_string_to_latin1_or_utf16, store_string_by, store_string_into_range, store_string,
}
use polyengine.Cabi.Strings.Utf8.{IsAscii, load_string_from_range-utf8}
use polyengine.Cabi.Strings.Widening.{load_string_from_range-widened}

unfoldable with_first : ℕ → Option Units → Option Units
with_first u none = none
with_first u (some us) = some (u ∷ us)

unfoldable decode_pairs : List ℕ → Option Units
decode_pairs [] = some []
decode_pairs (b ∷ []) = none
decode_pairs (b ∷ (c ∷ bs)) = with_first (b + 256 * c) (decode_pairs bs)

-- UTF-8 of one and two bytes.
unfoldable encode_short : Units → List ℕ
encode_short [] = []
encode_short (u ∷ us) =
    let rest = encode_short us in
    if ltb u 0x80 then u ∷ rest else (0xc0 + u / 64) ∷ (0x80 + u % 64) ∷ rest

unfoldable decode_short : List ℕ → Option Units
decode_short [] = some []
decode_short (b ∷ []) = if ltb b 0x80 then some (b ∷ []) else none
decode_short (b ∷ (c ∷ bs)) =
    let one = with_first b (decode_short (c ∷ bs)) in
    let two = with_first ((b - 0xc0) * 64 + (c - 0x80)) (decode_short bs) in
    if ltb b 0x80 then one else two

abbrev codecs : StringEncoding → Codecs
codecs e = record {
  string_encoding = e;
  to_well_formed = λ us. us;
  utf8_encode = encode_short;
  utf8_decode = decode_short;
  utf16_decode = decode_pairs;
}

string_code : ℕ
unfolding align_to trap_if_range_exceeds_memory bytes_of leaving call_realloc reallocate_by
    reallocate allocate utf16_tag latin1_decode encode_units encode_utf16_le read_bytes put_bytes
    write_bytes skip sequence_of utf8_scan utf8_error_message string_range decoded decode
    load_string_from_range spread set_byte_at write_at check_room check_aligned
    store_string_copy_utf16 encode_utf8_from copy_ascii store_string_to_utf8 widen narrow
    copy_latin1 store_string_to_latin1_or_utf16 store_string_by store_string_into_range with_first
    decode_pairs
string_code = 0

-- The first two bytes of a sequence of three, a byte that starts none, and a surrogate.
cut_short : utf8_error_message (0x61 ∷ 0xe2 ∷ 0x82 ∷ []) ≡ "incomplete utf-8 byte sequence"
unfolding string_code
cut_short = refl

no_sequence : utf8_error_message (0xc0 ∷ 0xaf ∷ []) ≡ "invalid utf-8"
unfolding string_code
no_sequence = refl

surrogate : utf8_error_message (0xed ∷ 0xa0 ∷ 0x80 ∷ []) ≡ "invalid utf-8"
unfolding string_code
surrogate = refl

too_long :
    load_string_from_range (codecs latin1_utf16) start.memory 8 (2 ^ 28)
    ≡ err (trap "string too long")
unfolding string_code
too_long = refl

unaligned :
    load_string_from_range (codecs utf16) start.memory 7 1 ≡ err (trap "misaligned string pointer")
unfolding string_code
unaligned = refl

no_room :
    store_string_into_range sample_host (codecs utf16) start (1 ∷ 2 ∷ 3 ∷ 4 ∷ 5 ∷ [])
    ≡ err (trap "realloc return: beyond end of memory")
unfolding string_code
no_room = refl

-- "hé"
load_string-store_string_example :
    Returns
      (λ stored.
        (stored.state ≡ start.state)
        × ((kept : Memory)
            → SameInside stored.memory kept 0 8
            → SameInside stored.memory kept 8 2
            → load_string (codecs latin1_utf16) kept 0 ≡ ok (0x68 ∷ 0xe9 ∷ [])))
      (store_string sample_host (codecs latin1_utf16) start (0x68 ∷ 0xe9 ∷ []) 0)
unfolding string_code IsLatin1
load_string-store_string_example =
    load_string-store_string sample_host (codecs latin1_utf16) start start (0x68 ∷ 0xe9 ∷ []) 0 8
      refl (omega arith, (omega arith, tt)) refl (omega arith) (refl, refl, omega arith)
      (omega arith) (omega arith) (omega arith)

abbrev copied : HostCx sample_host
copied = with_bytes sample_host start (put_bytes start.memory.byte 8 (0xe9 ∷ []))

-- "éαb"
load_string_from_range-widened_example :
    Returns
      (λ stored.
        (stored.0 ≡ (8, 3 + 2 ^ 31))
        × (stored.1.state ≡ start.state)
        × ((kept : Memory)
            → SameInside stored.1.memory kept 8 6
            → load_string_from_range (codecs latin1_utf16) kept 8 (3 + 2 ^ 31)
              ≡ ok (0xe9 ∷ 0x3b1 ∷ 0x62 ∷ [])))
      (store_string_into_range sample_host (codecs latin1_utf16) start (0xe9 ∷ 0x3b1 ∷ 0x62 ∷ []))
unfolding string_code IsLatin1
load_string_from_range-widened_example =
    load_string_from_range-widened sample_host (codecs latin1_utf16) start start copied (0xe9 ∷ [])
      (0x62 ∷ []) 0x3b1 8 8 refl (omega arith, tt) (omega arith) refl refl (omega arith)
      (refl, refl, omega arith) (refl, λ i lt. refl) refl (omega arith)

abbrev copied_ascii : HostCx sample_host
copied_ascii = with_bytes sample_host start (put_bytes start.memory.byte 8 (0x61 ∷ []))

abbrev encoded : HostCx sample_host
encoded =
    with_bytes sample_host copied_ascii (put_bytes copied_ascii.memory.byte 9 (0xc3 ∷ 0xa9 ∷ []))

-- "aé"
load_string_from_range-utf8_example :
    Returns
      (λ stored.
        (stored.0 ≡ (8, 3))
        × (stored.1.state ≡ start.state)
        × ((kept : Memory)
            → SameInside stored.1.memory kept 8 3
            → load_string_from_range (codecs utf8) kept 8 3 ≡ ok (0x61 ∷ 0xe9 ∷ [])))
      (store_string_into_range sample_host (codecs utf8) start (0x61 ∷ 0xe9 ∷ []))
unfolding string_code IsAscii encode_short decode_short
load_string_from_range-utf8_example =
    load_string_from_range-utf8 sample_host (codecs utf8) start start copied_ascii encoded
      (0x61 ∷ []) [] 0xe9 (0xc3 ∷ 0xa9 ∷ []) 8 8 8 refl (omega arith, tt) (omega arith) refl refl
      (omega arith) (omega arith) refl (omega arith)
      ((refl, omega arith, λ i lt. refl), (refl, omega arith, λ i lt. refl))
