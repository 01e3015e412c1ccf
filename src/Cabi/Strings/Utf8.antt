-- ===== src/Cabi/Strings/Utf8.antt =====
-- A string stored as utf8 that is not ASCII: it is encoded after the units copied, and the room shrinks.
use polyengine.Base.{
  ℕ, suc, ◌+◌, ◌-◌, ◌*◌, ◌^◌, ◌≤◌, ◌<◌, ◌≡◌, inl, refl, ap, ap₂, ◌∙◌, List, [], ◌∷◌, ◌++◌, some, ok,
  le→leb, lt→ltb, Returns, length, length-append, arith,
}
use polyengine.Cabi.Memory.{Memory, set_byte, trap_if_range_exceeds_memory}
use polyengine.Cabi.Memory.RoundTrip.{SameInside}
use polyengine.Cabi.Float.{Floats}
use polyengine.Cabi.Value.{Host}
use polyengine.Cabi.Access.{HostCx}
use polyengine.Cabi.Lists.{allocate, reallocate}
use polyengine.Cabi.Store.GuestLists.{not_ltb}
use polyengine.Cabi.Strings.{
  Units, Codecs, utf8, utf_8, max_string_byte_length, read_bytes, put_bytes, write_bytes,
  string_range, decode, decoded, load_string_from_range,
}
use polyengine.Cabi.Strings.Bytes.{
  put_bytes-outside, read_bytes-agree, read_bytes-put_bytes, read_bytes-append, skip-append,
}
use polyengine.Cabi.Strings.Storing.{
  set_byte_at, write_at, check_room, encode_utf8_from, copy_ascii, store_string_to_utf8,
  store_string_by, store_string_into_range,
}
use polyengine.Cabi.Strings.RoundTrip.{with_bytes, read_range}
use polyengine.Cabi.Strings.Widening.{Moved, read_bytes-move}

-- Every code unit is one of ASCII.
unfoldable pub IsAscii : Units → Type 0
IsAscii [] = Unit
IsAscii (u ∷ us) = (u < 0x80) × IsAscii us

module _ {fl : Floats} (host : Host fl) where
  -- Realloc gives this room, and keeps so many bytes.
  abbrev pub Regrows : HostCx host → ℕ → ℕ → ℕ → ℕ → HostCx host → ℕ → Type 0
  Regrows cx old old_bytes bytes begin cx' n =
      (reallocate host cx old old_bytes 1 bytes ≡ ok (begin, cx'))
      × (begin + bytes ≤ cx'.memory.length)
      × Moved host cx old cx' begin n

  copy_ascii-append :
      (c : Codecs) (src : Units) (cx : HostCx host) (ptr n : ℕ) (us vs : Units)
      → IsAscii us
      → copy_ascii host c src cx ptr n (us ++ vs)
        ≡ copy_ascii host c src
            (with_bytes host cx (put_bytes cx.memory.byte (ptr + n) us))
            ptr
            (n + length us)
            vs
  unfolding copy_ascii set_byte_at put_bytes IsAscii
  copy_ascii-append c src cx ptr n [] vs ascii =
      let same : n ≡ n + 0 = omega arith in ap (λ k. copy_ascii host c src cx ptr k vs) same
  copy_ascii-append c src cx ptr n (u ∷ us) vs (small, ascii) =
      let next = with_bytes host cx (set_byte cx.memory.byte (ptr + n) u) in
      let ih = copy_ascii-append c src next ptr (n + 1) us vs ascii in
      let place : ptr + (n + 1) ≡ ptr + n + 1 = omega arith in
      let count : n + 1 + length us ≡ n + suc (length us) = omega arith in
      rw (lt→ltb u 128 small) (
        ih
        ∙ ap₂
            (λ p k.
              copy_ascii host c src (with_bytes host cx (put_bytes next.memory.byte p us)) ptr k vs)
            place count)

  -- The bytes copied and the encoding of what follows them.
  encoded_bytes :
      (byte : ℕ → ℕ) (p : ℕ) (us enc : List ℕ)
      → read_bytes byte p (length us) ≡ us
      → read_bytes (put_bytes byte (p + length us) enc) p (length (us ++ enc)) ≡ us ++ enc
  encoded_bytes byte p us enc e =
      let all = put_bytes byte (p + length us) enc in
      ap (λ k. read_bytes all p k) (length-append us enc)
      ∙ read_bytes-append all p (length us) (length enc)
      ∙ ap₂ (λ xs ys. xs ++ ys)
          (read_bytes-agree all byte p (length us)
              (λ i lo hi. put_bytes-outside byte (p + length us) enc i (inl hi))
            ∙ e)
          (read_bytes-put_bytes byte (p + length us) enc)

  abbrev encoded_cx : HostCx host → ℕ → Units → List ℕ → HostCx host
  encoded_cx cx begin us enc = with_bytes host cx (put_bytes cx.memory.byte (begin + length us) enc)

  -- Encoded as utf8, a string with a code unit that is not ASCII, after some that are, is stored without
  -- an error, if three bytes a code unit are not more than strings may have and more than the platform's
  -- encoding needs, that encoding begins with the ASCII units as they are and is decoded back, and the
  -- guest's realloc gives room for a byte a code unit, for three, and for the encoding, and keeps the
  -- bytes. The result is the last address and the length of the encoding, and the host's state is as
  -- realloc left it. The string is loaded from any memory that keeps these bytes.
  pub load_string_from_range-utf8 :
      (c : Codecs) (cx cx₁ cx₂ cx₃ : HostCx host) (us rest : Units) (u : ℕ) (enc : List ℕ)
      (first second begin : ℕ)
      → c.string_encoding ≡ utf8
      → IsAscii us
      → 0x80 ≤ u
      → c.utf8_encode (us ++ (u ∷ rest)) ≡ us ++ enc
      → c.utf8_decode (us ++ enc) ≡ some (us ++ (u ∷ rest))
      → length (us ++ (u ∷ rest)) * 3 ≤ max_string_byte_length
      → length (us ++ enc) < length (us ++ (u ∷ rest)) * 3
      → allocate host cx 1 (length (us ++ (u ∷ rest))) ≡ ok (first, cx₁)
      → first + length (us ++ (u ∷ rest)) ≤ cx₁.memory.length
      → (let n = length (us ++ (u ∷ rest)) in
          Regrows
            (with_bytes host cx₁ (put_bytes cx₁.memory.byte first us))
            first
            n
            (n * 3)
            second
            cx₂
            (length us)
          × Regrows
              (encoded_cx cx₂ second us enc)
              second
              (n * 3)
              (length (us ++ enc))
              begin
              cx₃
              (length (us ++ enc)))
      → Returns
          (λ stored.
            (stored.0 ≡ (begin, length (us ++ enc)))
            × (stored.1.state ≡ cx₃.state)
            × ((kept : Memory)
                → SameInside stored.1.memory kept begin (length (us ++ enc))
                → load_string_from_range c kept begin (length (us ++ enc)) ≡ ok (us ++ (u ∷ rest))))
          (store_string_into_range host c cx (us ++ (u ∷ rest)))
  unfolding store_string_into_range store_string_by store_string_to_utf8 copy_ascii encode_utf8_from
      check_room trap_if_range_exceeds_memory write_at write_bytes SameInside string_range decode
      decoded
  load_string_from_range-utf8 c cx cx₁ cx₂ cx₃ us rest u enc first second begin encoding ascii wide
        encodes decodes short shrinks ea inside₁ ((e₂, inside₂, moved₂), (e₃, inside₃, moved₃)) =
      let src = us ++ (u ∷ rest) in
      let few = le→leb (length src) (2 ^ 32 - 1) (omega arith) in
      let few₃ = le→leb (length src * 3) (2 ^ 32 - 1) (omega arith) in
      let at : first + 0 ≡ first = omega arith in
      let all : 0 + length us ≡ length us = omega arith in
      let fits : second + length us + length enc ≤ cx₂.memory.length =
        omega (arith, inside₂, shrinks, length-append us enc) in
      let copied : copy_ascii host c src cx₁ first 0 src ≡ ok ((begin, length (us ++ enc)), cx₃) =
        copy_ascii-append c src cx₁ first 0 us (u ∷ rest) ascii
        ∙ rw
            (
              not_ltb u 128 wide,
              at,
              all,
              few₃,
              e₂,
              not_ltb cx₂.memory.length (second + length src * 3) inside₂,
              encodes,
              skip-append us enc,
              le→leb (second + length us + length enc) cx₂.memory.length fits,
              lt→ltb (length (us ++ enc)) (length src * 3) shrinks,
              e₃,
              not_ltb cx₃.memory.length (begin + length (us ++ enc)) inside₃,
            )
            refl in
      let copied_bytes : read_bytes cx₂.memory.byte second (length us) ≡ us =
        read_bytes-move cx₂.memory.byte (put_bytes cx₁.memory.byte first us) second first
          (length us) moved₂
        ∙ read_bytes-put_bytes cx₁.memory.byte first us in
      (
        ((begin, length (us ++ enc)), cx₃),
        ap (λ e. store_string_by host e c cx src) encoding
            ∙ rw (few, ea, not_ltb cx₁.memory.length (first + length src) inside₁, copied) refl,
        (
          refl,
          refl,
          λ kept (len, addr, same).
              read_range c kept 1 begin (length (us ++ enc)) (length (us ++ enc)) utf_8
                (rw encoding refl) (omega arith) (omega arith) (omega (arith, len, inside₃))
              ∙ ap (λ bs. decode c utf_8 bs)
                  (read_bytes-agree kept.byte cx₃.memory.byte begin (length (us ++ enc)) same
                    ∙ read_bytes-move cx₃.memory.byte
                        (put_bytes cx₂.memory.byte (second + length us) enc) begin second
                        (length (us ++ enc)) moved₃
                    ∙ encoded_bytes cx₂.memory.byte second us enc copied_bytes)
              ∙ rw decodes refl,
        ),
      )
