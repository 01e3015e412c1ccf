-- ===== src/Cabi/Value/Flags.antt =====
-- Flags packed into an integer and read back.
use Prim.Native.Nat.{bit_or-bitwise, digits}
use native.Mathlib.Nat.{pow-succ', mod-eq_of_lt, pow-le-pow_right}
use polyengine.Base.{
  ℕ, zero, suc, ◌+◌, ◌*◌, ◌/◌, ◌%◌, ◌^◌, ◌≤◌, ◌<◌, max, bit_or, ◌≡◌, refl, ap, ap₂, ◌∙◌, Bool, true,
  false, List, [], ◌∷◌, String, arith, length, ◌==◌,
}
use polyengine.Cabi.Float.{Floats}
use polyengine.Cabi.Value.{
  Members, Host, no_members, member, boolean, member_of, flag_bit, truthy, pack_flags_from,
  pack_flags_into_int, unpack_flags_from_int,
}

abbrev or_digits : ℕ → ℕ → ℕ → ℕ
or_digits = digits (λ b. b) max

or_digits-zero : (n b : ℕ) → or_digits n 0 b ≡ b
or_digits-zero zero b = refl
or_digits-zero (suc n) b = refl

or_digits_zero : (n a : ℕ) → a ≤ n → or_digits n a 0 ≡ a
or_digits_zero zero a h = omega arith
or_digits_zero (suc n) zero h = refl
or_digits_zero (suc n) (suc a) h = omega (arith, or_digits_zero n (suc a / 2) (omega arith))

or_digits_bit : (k n a : ℕ) → a < 2 ^ k → a ≤ n → or_digits n a (2 ^ k) ≡ a + 2 ^ k
or_digits_bit zero n zero h le = or_digits-zero n 1
or_digits_bit zero n (suc a) h le = absurd (omega arith)
or_digits_bit (suc k) n zero h le = or_digits-zero n (2 ^ suc k) ∙ omega arith
or_digits_bit (suc k) zero (suc a) h le = absurd (omega arith)
or_digits_bit (suc k) (suc n) (suc a) h le =
    let e = pow-succ' 2 k in
    let rest = or_digits_bit k n (suc a / 2) (omega (arith, e)) (omega arith) in
    let half : 2 ^ suc k / 2 ≡ 2 ^ k = omega (arith, e) in rw (half, rest) (omega (arith, e))

pub bit_or-flag_bit :
    (b : Bool) (i k : ℕ) → i < 2 ^ k → bit_or i (flag_bit b * 2 ^ k) ≡ i + flag_bit b * 2 ^ k
unfolding flag_bit
bit_or-flag_bit true i k h =
    let one : 1 * 2 ^ k ≡ 2 ^ k = omega arith in
    rw one (simp bit_or-bitwise (or_digits_bit k i i h (omega arith)))
bit_or-flag_bit false i k h =
    let none : 0 * 2 ^ k ≡ 0 = omega arith in
    rw none (simp (bit_or-bitwise, or_digits_zero i i (omega arith)) (omega arith))

double : (k : ℕ) → 2 ^ (k + 1) ≡ 2 * 2 ^ k
double k = let next : k + 1 ≡ suc k = omega arith in ap (λ j. 2 ^ j) next ∙ pow-succ' 2 k

-- The next flag is a digit above those that are packed, and 32 of them fit.
pack_step :
    (b : Bool) (i k : ℕ)
    → i < 2 ^ k
    → k < 32
    → (bit_or i (flag_bit b * 2 ^ k % 2 ^ 32) % 2 ^ 32 ≡ i + flag_bit b * 2 ^ k)
      × (i + flag_bit b * 2 ^ k < 2 ^ (k + 1))
unfolding flag_bit
pack_step b i k h lt =
    let fits = pow-le-pow_right {n = 2} (omega arith) {i = suc k} {j = 32} lt in
    let bound : flag_bit b * 2 ^ k ≤ 2 ^ k = ground arith in
    let inside =
      mod-eq_of_lt {n = flag_bit b * 2 ^ k} {m = 2 ^ 32} (omega (arith, fits, pow-succ' 2 k)) in
    rw
      (
        inside,
        bit_or-flag_bit b i k h,
        mod-eq_of_lt {n = i + flag_bit b * 2 ^ k} {m = 2 ^ 32} (omega (arith, fits, pow-succ' 2 k)),
      )
      (refl, omega (arith, double k))

module _ {fl : Floats} (host : Host fl) where
  -- The integer with one binary digit for each label, the first one lowest.
  unfoldable pub flags_word : Members fl.Number host.Other → List String → ℕ
  flags_word ms [] = 0
  flags_word ms (l ∷ ls) = flag_bit (truthy host (member_of l ms)) + 2 * flags_word ms ls

  -- An object with the labels in order and the truth value of each.
  unfoldable pub flags_of :
      Members fl.Number host.Other → List String → Members fl.Number host.Other
  flags_of ms [] = no_members
  flags_of ms (l ∷ ls) = member l (boolean (truthy host (member_of l ms))) (flags_of ms ls)

  pack_flags_from-eq :
      (ms : Members fl.Number host.Other) (i k : ℕ) (ls : List String)
      → i < 2 ^ k
      → k + length ls ≤ 32
      → pack_flags_from host ms i k ls ≡ i + 2 ^ k * flags_word ms ls
  unfolding pack_flags_from flags_word
  pack_flags_from-eq ms i k [] h le = omega arith
  pack_flags_from-eq ms i k (l ∷ ls) h le =
      let b = truthy host (member_of l ms) in
      let (e, lt) = pack_step b i k h (omega arith) in
      let rest = pack_flags_from-eq ms (i + flag_bit b * 2 ^ k) (k + 1) ls lt (omega arith) in
      let twice = ap (λ p. p * flags_word ms ls) (double k) in
      ap (λ j. pack_flags_from host ms j (k + 1) ls) e ∙ rest ∙ grind (arith, twice)

  pub flags_word-lt :
      (ms : Members fl.Number host.Other) (ls : List String) → flags_word ms ls < 2 ^ length ls
  unfolding flags_word flag_bit
  flags_word-lt ms [] = omega arith
  flags_word-lt ms (l ∷ ls) = ground (arith, flags_word-lt ms ls, pow-succ' 2 (length ls))

  pub pack_flags_into_int-eq :
      (ms : Members fl.Number host.Other) (ls : List String)
      → length ls ≤ 32
      → pack_flags_into_int host ms ls ≡ flags_word ms ls
  unfolding pack_flags_into_int
  pack_flags_into_int-eq ms ls h =
      pack_flags_from-eq ms 0 0 ls (omega arith) (omega arith) ∙ omega arith

  flag_bit_digit :
      (b : Bool) (w : ℕ) → ((flag_bit b + 2 * w) % 2 == 1 ≡ b) × ((flag_bit b + 2 * w) / 2 ≡ w)
  unfolding flag_bit
  flag_bit_digit true w = (ground arith, omega arith)
  flag_bit_digit false w = (ground arith, omega arith)

  pub unpack_flags_from_int-eq :
      (ms : Members fl.Number host.Other) (ls : List String)
      → unpack_flags_from_int host (flags_word ms ls) ls ≡ flags_of ms ls
  unfolding unpack_flags_from_int flags_word flags_of
  unpack_flags_from_int-eq ms [] = refl
  unpack_flags_from_int-eq ms (l ∷ ls) =
      let (digit, rest) = flag_bit_digit (truthy host (member_of l ms)) (flags_word ms ls) in
      ap₂ (λ b tail. member l (boolean b) tail) digit
        (ap (λ w. unpack_flags_from_int host w ls) rest ∙ unpack_flags_from_int-eq ms ls)

  -- Up to 32 flags, which give an integer below 2 to their number, are read back from it: the labels
  -- in order, each with the truth value of that member of the object.
  pub unpack_flags_from_int-pack_flags_into_int :
      (ms : Members fl.Number host.Other) (ls : List String)
      → length ls ≤ 32
      → (pack_flags_into_int host ms ls < 2 ^ length ls)
        × (unpack_flags_from_int host (pack_flags_into_int host ms ls) ls ≡ flags_of ms ls)
  unpack_flags_from_int-pack_flags_into_int ms ls h =
      rw (pack_flags_into_int-eq ms ls h) (flags_word-lt ms ls, unpack_flags_from_int-eq ms ls)
