-- ===== src/Cabi/Strings/Widening.antt =====
-- A string stored as latin1+utf16 that has a code unit that is not Latin-1: what was copied is widened.
use polyengine.Base.{
  ℕ, zero, suc, ◌+◌, ◌-◌, ◌*◌, ◌/◌, ◌%◌, ◌^◌, ◌==◌, ◌≤◌, ◌<◌, ◌≡◌, inl, inr, refl, sym, ap, ap₂,
  ◌∙◌, true, ◌∷◌, ◌++◌, some, ok, le→leb, Returns, length, length-append, arith, bit_or,
}
use polyengine.Cabi.Types.{PtrType}
use polyengine.Cabi.Layout.{align_to}
use polyengine.Cabi.Layout.Align.{align_to-aligned}
use polyengine.Cabi.Memory.{Memory, trap_if_range_exceeds_memory}
use polyengine.Cabi.Memory.RoundTrip.{SameInside}
use polyengine.Cabi.Float.{Floats}
use polyengine.Cabi.Value.{Host, flag_bit}
use polyengine.Cabi.Value.Flags.{bit_or-flag_bit}
use polyengine.Cabi.Access.{HostCx}
use polyengine.Cabi.Lists.{reallocate}
use polyengine.Cabi.Store.GuestLists.{not_ltb, not_unequal}
use polyengine.Cabi.Strings.{
  Units, Codecs, latin1_utf16, max_string_byte_length, utf16_tag, encode_units, utf_16_le,
  encode_utf16_le, read_bytes, put_bytes, write_bytes, skip, string_range, decode, decoded,
  load_string_from_range,
}
use polyengine.Cabi.Strings.Bytes.{
  IsLatin1, put_bytes-outside, read_bytes-agree, read_bytes-put_bytes, read_bytes-append,
  spread-unit, read_bytes-encode_units, encode_units-append, length-encode_units, skip-append,
}
use polyengine.Cabi.Strings.Storing.{
  spread, write_at, check_room, check_aligned, widen, copy_latin1, store_string_to_latin1_or_utf16,
  store_string_by, store_string_into_range,
}
use polyengine.Cabi.Strings.RoundTrip.{with_bytes, copy_latin1-append, read_range, AllocatesBytes}

pub read_bytes-move :
    (b c : ℕ → ℕ) (p q n : ℕ)
    → ((i : ℕ) → i < n → b (p + i) ≡ c (q + i))
    → read_bytes b p n ≡ read_bytes c q n
unfolding read_bytes
read_bytes-move b c p q zero h = refl
read_bytes-move b c p q (suc n) h =
    let at_p : p ≡ p + 0 = omega arith in
    let at_q : q + 0 ≡ q = omega arith in
    ap₂ (λ x xs. x ∷ xs) (ap b at_p ∙ h 0 (omega arith) ∙ ap c at_q)
      (read_bytes-move b c (p + 1) (q + 1) n (λ i lt.
        let next_p : p + 1 + i ≡ p + suc i = omega arith in
        let next_q : q + suc i ≡ q + 1 + i = omega arith in
        ap b next_p ∙ h (suc i) (omega (arith, lt)) ∙ ap c next_q))

-- The widened code units and the encoding of those that follow are the encoding of the string.
widened_bytes :
    (byte : ℕ → ℕ) (p : ℕ) (us vs : Units)
    → IsLatin1 us
    → read_bytes byte p (length us) ≡ us
    → read_bytes
        (put_bytes (spread byte p (length us)) (p + 2 * length us) (encode_units vs))
        p
        (2 * length (us ++ vs))
      ≡ encode_units (us ++ vs)
widened_bytes byte p us vs latin e =
    let n = length us in
    let wide = spread byte p n in
    let all = put_bytes wide (p + 2 * n) (encode_units vs) in
    let count : 2 * length (us ++ vs) ≡ 2 * n + length (encode_units vs) =
      omega (arith, length-append us vs, length-encode_units vs) in
    ap (λ k. read_bytes all p k) count
    ∙ read_bytes-append all p (2 * n) (length (encode_units vs))
    ∙ ap₂ (λ xs ys. xs ++ ys)
        (read_bytes-agree all wide p (2 * n)
            (λ i lo hi. put_bytes-outside wide (p + 2 * n) (encode_units vs) i (inl hi))
          ∙ read_bytes-encode_units byte wide p p us latin e (λ k lt. spread-unit byte p n k lt))
        (read_bytes-put_bytes wide (p + 2 * n) (encode_units vs))
    ∙ sym (encode_units-append us vs)

tag_set :
    (addr : PtrType) (n : ℕ)
    → n ≤ max_string_byte_length
    → (((n + utf16_tag addr) / utf16_tag addr % 2 == 1) ≡ true)
      × (n + utf16_tag addr - utf16_tag addr ≡ n)
unfolding utf16_tag
tag_set PtrType.i32 n h = (ground arith, omega arith)
tag_set PtrType.i64 n h = (ground arith, omega arith)

tag-bit_or :
    (addr : PtrType) (n : ℕ)
    → n ≤ max_string_byte_length
    → bit_or n (utf16_tag addr) ≡ n + utf16_tag addr
unfolding utf16_tag flag_bit
tag-bit_or PtrType.i32 n h = bit_or-flag_bit true n 31 (omega arith)
tag-bit_or PtrType.i64 n h = bit_or-flag_bit true n 63 (omega arith)

skipped_units : (us vs : Units) → skip (2 * length us) (encode_units (us ++ vs)) ≡ encode_units vs
skipped_units us vs =
    ap₂ skip (sym (length-encode_units us)) (encode_units-append us vs)
    ∙ skip-append (encode_units us) (encode_units vs)

half : (n : ℕ) → 2 * n / 2 ≡ n
half n = omega arith

module _ {fl : Floats} (host : Host fl) where
  -- What realloc has kept of the bytes of the old address.
  abbrev pub Moved : HostCx host → ℕ → HostCx host → ℕ → ℕ → Type 0
  Moved cx old cx' begin n =
      (i : ℕ) → i < n → cx'.memory.byte (begin + i) ≡ cx.memory.byte (old + i)

  abbrev widened_cx : HostCx host → ℕ → Units → Units → HostCx host
  widened_cx cx begin us vs = with_bytes host cx (
      put_bytes (spread cx.memory.byte begin (length us)) (begin + 2 * length us) (encode_units vs))

  widen-ok :
      (c : Codecs) (cx cx' : HostCx host) (us vs : Units) (old begin : ℕ)
      → c.to_well_formed (us ++ vs) ≡ us ++ vs
      → 2 * length (us ++ vs) ≤ max_string_byte_length
      → reallocate host cx old (length (us ++ vs)) 2 (2 * length (us ++ vs)) ≡ ok (begin, cx')
      → begin % 2 ≡ 0
      → begin + 2 * length (us ++ vs) ≤ cx'.memory.length
      → widen host c (us ++ vs) cx old (length us)
        ≡ ok (
          (begin, length (us ++ vs) + utf16_tag cx'.memory.addr_type),
          widened_cx cx' begin us vs,
        )
  unfolding widen check_aligned check_room trap_if_range_exceeds_memory write_at write_bytes
      encode_utf16_le
  widen-ok c cx cx' us vs old begin wf short er aligned inside =
      let n = length (us ++ vs) in
      let few = le→leb (2 * n) (2 ^ 32 - 1) (omega arith) in
      let fixed = sym (align_to-aligned begin 2 (inr (inl refl)) aligned) in
      let size = length-encode_units (us ++ vs) in
      let fits : begin + 2 * length us + length (encode_units vs) ≤ cx'.memory.length =
        omega (arith, inside, length-append us vs, length-encode_units vs) in
      let tagged = tag-bit_or cx'.memory.addr_type n (omega arith) in
      rw
        (
          few,
          er,
          not_unequal begin (align_to begin 2) fixed,
          not_ltb cx'.memory.length (begin + 2 * n) inside,
          wf,
          wf,
          skipped_units us vs,
          le→leb (begin + 2 * length us + length (encode_units vs)) cx'.memory.length fits,
          size,
          not_ltb (2 * n) (2 * n) (omega arith),
          half n,
          tagged,
        )
        refl

  -- Encoded as latin1+utf16, a well-formed string with a code unit that is not Latin-1, after some that
  -- are, is stored without an error, if its encoding of two bytes a code unit is not longer than
  -- strings may be, the platform decodes it back, and the guest's realloc gives room first for a byte a
  -- code unit and then for two, at even addresses, and keeps the bytes. The result is the second
  -- address and the number of code units with the tag bit, and the host's state is as realloc left it.
  -- The string is loaded from any memory that keeps these bytes.
  pub load_string_from_range-widened :
      (c : Codecs) (cx cx₁ cx₂ : HostCx host) (us rest : Units) (u old begin : ℕ)
      → c.string_encoding ≡ latin1_utf16
      → IsLatin1 us
      → 256 ≤ u
      → c.to_well_formed (us ++ (u ∷ rest)) ≡ us ++ (u ∷ rest)
      → c.utf16_decode (encode_units (us ++ (u ∷ rest))) ≡ some (us ++ (u ∷ rest))
      → 2 * length (us ++ (u ∷ rest)) ≤ max_string_byte_length
      → AllocatesBytes host cx (length (us ++ (u ∷ rest))) old cx₁
      → (let copied = with_bytes host cx₁ (put_bytes cx₁.memory.byte old us) in
          (reallocate host copied old (length (us ++ (u ∷ rest))) 2 (2 * length (us ++ (u ∷ rest)))
            ≡ ok (begin, cx₂))
          × Moved copied old cx₂ begin (length (us ++ (u ∷ rest))))
      → begin % 2 ≡ 0
      → begin + 2 * length (us ++ (u ∷ rest)) ≤ cx₂.memory.length
      → (let units = length (us ++ (u ∷ rest)) + utf16_tag cx₂.memory.addr_type in
          Returns
            (λ stored.
              (stored.0 ≡ (begin, units))
              × (stored.1.state ≡ cx₂.state)
              × ((kept : Memory)
                  → SameInside stored.1.memory kept begin (2 * length (us ++ (u ∷ rest)))
                  → load_string_from_range c kept begin units ≡ ok (us ++ (u ∷ rest))))
            (store_string_into_range host c cx (us ++ (u ∷ rest))))
  unfolding store_string_into_range store_string_by store_string_to_latin1_or_utf16 copy_latin1
      check_aligned check_room trap_if_range_exceeds_memory SameInside string_range decode decoded
  load_string_from_range-widened c cx cx₁ cx₂ us rest u old begin encoding latin wide wf decodes
        short (ea, aligned₁, inside₁) (er, moved) aligned inside =
      let src = us ++ (u ∷ rest) in
      let few = le→leb (length src) (2 ^ 32 - 1) (omega arith) in
      let fixed = sym (align_to-aligned old 2 (inr (inl refl)) aligned₁) in
      let at : old + 0 ≡ old = omega arith in
      let all : 0 + length us ≡ length us = omega arith in
      let big = not_ltb u 256 wide in
      let copied : copy_latin1 host c src cx₁ old 0 src
          ≡ ok (
            (begin, length src + utf16_tag cx₂.memory.addr_type),
            widened_cx cx₂ begin us (u ∷ rest),
          ) =
        copy_latin1-append host c src cx₁ old 0 us (u ∷ rest) latin
        ∙ rw (big, at, all) (widen-ok c _ cx₂ us (u ∷ rest) old begin wf short er aligned inside) in
      let kept_bytes : read_bytes cx₂.memory.byte begin (length us) ≡ us =
        read_bytes-move cx₂.memory.byte (put_bytes cx₁.memory.byte old us) begin old (length us)
          (λ i lt. moved i (omega (arith, lt, length-append us (u ∷ rest))))
        ∙ read_bytes-put_bytes cx₁.memory.byte old us in
      (
        ((begin, length src + utf16_tag cx₂.memory.addr_type), widened_cx cx₂ begin us (u ∷ rest)),
        ap (λ e. store_string_by host e c cx src) encoding
            ∙ rw
                (
                  few,
                  ea,
                  not_unequal old (align_to old 2) fixed,
                  not_ltb cx₁.memory.length (old + length src) inside₁,
                  wf,
                  copied,
                )
                refl,
        (
          refl,
          refl,
          λ kept (len, addr, same).
              let (set, units) = tag_set cx₂.memory.addr_type (length src) (omega arith) in
              read_range c kept 2 begin (2 * length src)
                (length src + utf16_tag cx₂.memory.addr_type) utf_16_le
                (rw (encoding, addr, set, units) refl) short aligned (omega (arith, len, inside))
              ∙ ap (λ bs. decode c utf_16_le bs)
                  (read_bytes-agree kept.byte _ begin (2 * length src) same
                    ∙ widened_bytes cx₂.memory.byte begin us (u ∷ rest) latin kept_bytes)
              ∙ rw decodes refl,
        ),
      )
