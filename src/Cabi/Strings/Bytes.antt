-- ===== src/Cabi/Strings/Bytes.antt =====
-- Bytes that are written and read back, and widened to code units.
use polyengine.Base.{
  ℕ, zero, suc, ◌+◌, ◌*◌, ◌/◌, ◌%◌, ◌≤◌, ◌<◌, ◌≡◌, ◌⊎◌, inl, inr, refl, ap, ap₂, ◌∙◌, List, [], ◌∷◌,
  ◌++◌, length, arith,
}
use polyengine.Cabi.Memory.{set_byte}
use polyengine.Cabi.Strings.{Units, encode_units, read_bytes, put_bytes, skip}
use polyengine.Cabi.Strings.Storing.{spread}

-- Every code unit is one of Latin-1.
unfoldable pub IsLatin1 : Units → Type 0
IsLatin1 [] = Unit
IsLatin1 (u ∷ us) = (u < 256) × IsLatin1 us

pub put_bytes-outside :
    (byte : ℕ → ℕ) (ptr : ℕ) (bs : List ℕ) (i : ℕ)
    → (i < ptr) ⊎ (ptr + length bs ≤ i)
    → put_bytes byte ptr bs i ≡ byte i
unfolding put_bytes
put_bytes-outside byte ptr [] i h = refl
put_bytes-outside byte ptr (b ∷ bs) i h =
    put_bytes-outside (set_byte byte ptr b) (ptr + 1) bs i (omega arith) ∙ ground arith

pub read_bytes-agree :
    (b c : ℕ → ℕ) (ptr n : ℕ)
    → ((i : ℕ) → ptr ≤ i → i < ptr + n → b i ≡ c i)
    → read_bytes b ptr n ≡ read_bytes c ptr n
unfolding read_bytes
read_bytes-agree b c ptr zero h = refl
read_bytes-agree b c ptr (suc n) h =
    ap₂ (λ x xs. x ∷ xs) (h ptr (omega arith) (omega arith))
      (read_bytes-agree b c (ptr + 1) n (λ i lo hi. h i (omega arith) (omega arith)))

pub read_bytes-put_bytes :
    (byte : ℕ → ℕ) (ptr : ℕ) (bs : List ℕ) → read_bytes (put_bytes byte ptr bs) ptr (length bs) ≡ bs
unfolding read_bytes put_bytes
read_bytes-put_bytes byte ptr [] = refl
read_bytes-put_bytes byte ptr (b ∷ bs) =
    let first : put_bytes (set_byte byte ptr b) (ptr + 1) bs ptr ≡ b =
      put_bytes-outside (set_byte byte ptr b) (ptr + 1) bs ptr (omega arith) ∙ ground arith in
    ap₂ (λ x xs. x ∷ xs) first (read_bytes-put_bytes (set_byte byte ptr b) (ptr + 1) bs)

pub read_bytes-append :
    (byte : ℕ → ℕ) (ptr m n : ℕ)
    → read_bytes byte ptr (m + n) ≡ read_bytes byte ptr m ++ read_bytes byte (ptr + m) n
unfolding read_bytes
read_bytes-append byte ptr zero n = ap₂ (λ p k. read_bytes byte p k) same_ptr same_count
  where
    same_ptr : ptr ≡ ptr + 0
    same_ptr = omega arith

    same_count : 0 + n ≡ n
    same_count = omega arith
read_bytes-append byte ptr (suc m) n =
    let count : suc m + n ≡ suc (m + n) = omega arith in
    let next : ptr + 1 + m ≡ ptr + suc m = omega arith in
    ap (λ k. read_bytes byte ptr k) count
    ∙ ap (λ xs. byte ptr ∷ xs)
        (read_bytes-append byte (ptr + 1) m n
          ∙ ap (λ p. read_bytes byte (ptr + 1) m ++ read_bytes byte p n) next)

abbrev widened : (ℕ → ℕ) → ℕ → ℕ → ℕ → ℕ
widened byte ptr j = set_byte (set_byte byte (ptr + 2 * j) (byte (ptr + j))) (ptr + 2 * j + 1) 0

-- Above what is widened nothing changes, and in it each byte is a code unit.
pub spread-outside : (byte : ℕ → ℕ) (ptr n i : ℕ) → ptr + 2 * n ≤ i → spread byte ptr n i ≡ byte i
unfolding spread
spread-outside byte ptr zero i h = refl
spread-outside byte ptr (suc j) i h =
    spread-outside (widened byte ptr j) ptr j i (omega arith) ∙ ground arith

lt_suc_cases : (k j : ℕ) → k < suc j → (k < j) ⊎ (k ≡ j)
lt_suc_cases k j h = omega arith

pub spread-unit :
    (byte : ℕ → ℕ) (ptr n k : ℕ)
    → k < n
    → (spread byte ptr n (ptr + 2 * k) ≡ byte (ptr + k)) × (spread byte ptr n (ptr + 2 * k + 1) ≡ 0)
unfolding spread
spread-unit byte ptr zero k h = absurd (omega arith)
spread-unit byte ptr (suc j) k h = elim (lt_suc_cases k j h) [
  | inl lt ↦
      let (low, high) = spread-unit (widened byte ptr j) ptr j k lt in (low ∙ ground arith, high)
  | inr same ↦ rw same (
    spread-outside (widened byte ptr j) ptr j (ptr + 2 * j) (omega arith) ∙ ground arith,
    spread-outside (widened byte ptr j) ptr j (ptr + 2 * j + 1) (omega arith) ∙ ground arith,
  )
]

-- Where each code unit of two bytes is a Latin-1 byte, the bytes are the encoding of these units.
pub read_bytes-encode_units :
    (byte wide : ℕ → ℕ) (q p : ℕ) (us : Units)
    → IsLatin1 us
    → read_bytes byte q (length us) ≡ us
    → ((k : ℕ) → k < length us → (wide (p + 2 * k) ≡ byte (q + k)) × (wide (p + 2 * k + 1) ≡ 0))
    → read_bytes wide p (2 * length us) ≡ encode_units us
unfolding read_bytes encode_units IsLatin1
read_bytes-encode_units byte wide q p [] latin e h = refl
read_bytes-encode_units byte wide q p (u ∷ us) (small, latin) e h =
    let count : 2 * suc (length us) ≡ suc (suc (2 * length us)) = omega arith in
    let head : byte q ≡ u = cc in
    let tail : read_bytes byte (q + 1) (length us) ≡ us = cc in
    let (low, high) = h 0 (omega arith) in
    let at_p : p ≡ p + 2 * 0 = omega arith in
    let at_q : q + 0 ≡ q = omega arith in
    let byte_unit : u ≡ u % 256 = omega arith in
    let no_high : 0 ≡ u / 256 % 256 = omega arith in
    let first : wide p ≡ u % 256 = ap wide at_p ∙ low ∙ ap byte at_q ∙ head ∙ byte_unit in
    let second : wide (p + 1) ≡ u / 256 % 256 = ap (λ i. wide (i + 1)) at_p ∙ high ∙ no_high in
    let rest = read_bytes-encode_units byte wide (q + 1) (p + 1 + 1) us latin tail (λ k lt.
      let (l, g) = h (suc k) (omega (arith, lt)) in
      let pair : p + 1 + 1 + 2 * k ≡ p + 2 * suc k = omega arith in
      let unit : q + suc k ≡ q + 1 + k = omega arith in
      (ap wide pair ∙ l ∙ ap byte unit, ap (λ i. wide (i + 1)) pair ∙ g)) in
    ap (λ k. read_bytes wide p k) count
    ∙ ap₂ (λ x xs. x ∷ xs) first (ap₂ (λ x xs. x ∷ xs) second rest)

pub encode_units-append :
    (us vs : Units) → encode_units (us ++ vs) ≡ encode_units us ++ encode_units vs
unfolding encode_units
encode_units-append [] vs = refl
encode_units-append (u ∷ us) vs =
    ap (λ bs. u % 256 ∷ u / 256 % 256 ∷ bs) (encode_units-append us vs)

pub length-encode_units : (us : Units) → length (encode_units us) ≡ 2 * length us
unfolding encode_units
length-encode_units [] = refl
length-encode_units (u ∷ us) = omega (arith, length-encode_units us)

pub skip-append : (bs cs : List ℕ) → skip (length bs) (bs ++ cs) ≡ cs
unfolding skip
skip-append [] cs = refl
skip-append (b ∷ bs) cs = skip-append bs cs
