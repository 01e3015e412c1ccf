-- ===== src/Cabi/Layout/Align.antt =====
-- `align_to` and the alignments 1, 2, 4 and 8.
use polyengine.Base.{
  ℕ, zero, suc, ◌+◌, ◌*◌, ◌%◌, ◌≤◌, ◌<◌, max, ◌≡◌, refl, subst, sym, ◌⊎◌, inl, inr, arith, true,
}
use polyengine.Cabi.Layout.{align_to, is_power_of_two}

abbrev pub IsAlign : ℕ → Type 0
IsAlign a = (a ≡ 1) ⊎ ((a ≡ 2) ⊎ ((a ≡ 4) ⊎ (a ≡ 8)))

pub IsAlign-elim {ℓ} : (P : ℕ → Type ℓ) → P 1 → P 2 → P 4 → P 8 → (a : ℕ) → IsAlign a → P a
IsAlign-elim P one two four eight a (inl e) = subst P (sym e) one
IsAlign-elim P one two four eight a (inr (inl e)) = subst P (sym e) two
IsAlign-elim P one two four eight a (inr (inr (inl e))) = subst P (sym e) four
IsAlign-elim P one two four eight a (inr (inr (inr e))) = subst P (sym e) eight

-- The result is the least multiple of the alignment that is not below the pointer.
pub align_to_bounds :
    (p a : ℕ) → IsAlign a → (p ≤ align_to p a) × (align_to p a % a ≡ 0) × (align_to p a < p + a)
unfolding align_to
align_to_bounds p =
    IsAlign-elim (λ a. (p ≤ align_to p a) × (align_to p a % a ≡ 0) × (align_to p a < p + a))
      (omega arith) (omega arith) (omega arith) (omega arith)

pub align_to_base :
    (base p a : ℕ) → IsAlign a → base % a ≡ 0 → align_to (base + p) a ≡ base + align_to p a
unfolding align_to
align_to_base base p =
    IsAlign-elim (λ a. base % a ≡ 0 → align_to (base + p) a ≡ base + align_to p a)
      (λ h. omega arith) (λ h. omega arith) (λ h. omega arith) (λ h. omega arith)

pub max-IsAlign : (a b : ℕ) → IsAlign a → IsAlign b → IsAlign (max a b)
max-IsAlign a b h k = omega arith

-- A smaller alignment divides a larger one.
pub mod-le-align : (x a b : ℕ) → IsAlign a → IsAlign b → a ≤ b → x % b ≡ 0 → x % a ≡ 0
mod-le-align x a b h k =
    IsAlign-elim (λ a. a ≤ b → x % b ≡ 0 → x % a ≡ 0)
      (IsAlign-elim (λ b. 1 ≤ b → x % b ≡ 0 → x % 1 ≡ 0) (omega arith) (omega arith) (omega arith)
        (omega arith) b k)
      (IsAlign-elim (λ b. 2 ≤ b → x % b ≡ 0 → x % 2 ≡ 0) (omega arith) (omega arith) (omega arith)
        (omega arith) b k)
      (IsAlign-elim (λ b. 4 ≤ b → x % b ≡ 0 → x % 4 ≡ 0) (omega arith) (omega arith) (omega arith)
        (omega arith) b k)
      (IsAlign-elim (λ b. 8 ≤ b → x % b ≡ 0 → x % 8 ≡ 0) (omega arith) (omega arith) (omega arith)
        (omega arith) b k)
      a h

pub IsAlign-is_power_of_two : (a : ℕ) → IsAlign a → is_power_of_two a ≡ true
unfolding is_power_of_two
IsAlign-is_power_of_two = IsAlign-elim (λ a. is_power_of_two a ≡ true) refl refl refl refl

pub mul-mod-align : (n s a : ℕ) → IsAlign a → s % a ≡ 0 → (n * s) % a ≡ 0
mul-mod-align zero s a h e =
    IsAlign-elim (λ a. (0 * s) % a ≡ 0) (omega arith) (omega arith) (omega arith) (omega arith) a h
mul-mod-align (suc n) s a h e =
    IsAlign-elim (λ a. s % a ≡ 0 → (n * s) % a ≡ 0 → (suc n * s) % a ≡ 0) (omega arith)
      (omega arith) (omega arith) (omega arith) a h e (mul-mod-align n s a h e)

pub add-mod-align : (x y a : ℕ) → IsAlign a → x % a ≡ 0 → y % a ≡ 0 → (x + y) % a ≡ 0
add-mod-align x y =
    IsAlign-elim (λ a. x % a ≡ 0 → y % a ≡ 0 → (x + y) % a ≡ 0) (omega arith) (omega arith)
      (omega arith) (omega arith)

pub align_to-aligned : (p a : ℕ) → IsAlign a → p % a ≡ 0 → align_to p a ≡ p
unfolding align_to
align_to-aligned p =
    IsAlign-elim (λ a. p % a ≡ 0 → align_to p a ≡ p) (omega arith) (omega arith) (omega arith)
      (omega arith)
