-- ===== src/Base/Bits.antt =====
-- `&` with a mask of low bits is a remainder.
use Prim.Native.Nat.{
  ℕ, zero, suc, ◌+◌, ◌*◌, ◌-◌, ◌/◌, ◌%◌, ◌^◌, ◌<◌, ◌≤◌, min, bit_and, bit_and-bitwise, digits,
}
use mathlib.Core.Path.{◌≡◌, refl, sym, ap}
use native.Mathlib.Nat.{pow-succ', one-le-pow, div-div-eq-div-mul, mod-add-div, zero-mod}
use native.Mathlib.Omega.{arith}

abbrev and_digits : ℕ → ℕ → ℕ → ℕ
and_digits = digits (λ _. 0) min

and_digits-zero : (n a : ℕ) → and_digits n a 0 ≡ 0
and_digits-zero zero a = refl
and_digits-zero (suc n) zero = refl
and_digits-zero (suc n) (suc a) = omega (arith, and_digits-zero n (suc a / 2))

mod_double : (a p : ℕ) → 0 < p → a / 2 % p * 2 + a % 2 ≡ a % (2 * p)
mod_double a p h = omega (
  arith,
  mod-add-div (a / 2) p,
  mod-add-div a (2 * p),
  ap (λ q. 2 * p * q) (div-div-eq-div-mul a 2 p),
)

and_digits_step :
    (p n a : ℕ)
    → 0 < p
    → and_digits n (suc a / 2) (p - 1) ≡ suc a / 2 % p
    → and_digits (suc n) (suc a) (2 * p - 1) ≡ suc a % (2 * p)
and_digits_step p n a h e =
    let half : (2 * p - 1) / 2 ≡ p - 1 = omega arith in
    let odd : (2 * p - 1) % 2 ≡ 1 = omega arith in
    rw (half, odd, e) (omega (arith, mod_double (suc a) p h))

and_digits_mask : (k n a : ℕ) → a ≤ n → and_digits n a (2 ^ k - 1) ≡ a % 2 ^ k
and_digits_mask zero n a h = omega (arith, and_digits-zero n a)
and_digits_mask (suc k) zero zero h = sym (zero-mod _)
and_digits_mask (suc k) zero (suc a) h = absurd (omega arith)
and_digits_mask (suc k) (suc n) zero h = sym (zero-mod _)
and_digits_mask (suc k) (suc n) (suc a) h = rw (pow-succ' 2 k) (
    and_digits_step (2 ^ k) n a (one-le-pow k 2 (omega arith))
      (and_digits_mask k n (suc a / 2) (omega arith)))

pub bit_and_mask : (k a : ℕ) → bit_and a (2 ^ k - 1) ≡ a % 2 ^ k
bit_and_mask k a = simp bit_and-bitwise (and_digits_mask k a a (omega arith))
