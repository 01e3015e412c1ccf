-- ===== src/Cabi/Memory/Bytes.antt =====
-- Reading back the bytes of a word.
use native.Mathlib.Nat.{pow-succ', one-le-pow, mod-add-div, div-div-eq-div-mul}
use polyengine.Base.{
  ℕ, zero, suc, ◌+◌, ◌*◌, ◌/◌, ◌%◌, ◌^◌, ◌≤◌, ◌<◌, ◌≡◌, ◌⊎◌, inl, refl, ap, arith, ◌∙◌,
}
use polyengine.Cabi.Memory.{get_uint, set_uint, set_byte}

pub set_uint-outside :
    (byte : ℕ → ℕ) (ptr n v i : ℕ) → (i < ptr) ⊎ (ptr + n ≤ i) → set_uint byte ptr n v i ≡ byte i
unfolding set_uint
set_uint-outside byte ptr zero v i h = refl
set_uint-outside byte ptr (suc n) v i h =
    set_uint-outside (set_byte byte ptr (v % 256)) (ptr + 1) n (v / 256) i (omega arith)
    ∙ ground arith

set_uint-first : (byte : ℕ → ℕ) (ptr n v : ℕ) → set_uint byte ptr (suc n) v ptr ≡ v % 256
unfolding set_uint
set_uint-first byte ptr n v =
    set_uint-outside (set_byte byte ptr (v % 256)) (ptr + 1) n (v / 256) ptr (inl (omega arith))
    ∙ ground arith

mod_256 : (v p : ℕ) → 0 < p → v % 256 + 256 * (v / 256 % p) ≡ v % (256 * p)
mod_256 v p h = omega (
  arith,
  mod-add-div (v / 256) p,
  mod-add-div v (256 * p),
  ap (λ q. 256 * p * q) (div-div-eq-div-mul v 256 p),
)

pub get_uint-set_uint :
    (byte : ℕ → ℕ) (ptr n v : ℕ) → get_uint (set_uint byte ptr n v) ptr n ≡ v % 256 ^ n
unfolding get_uint set_uint
get_uint-set_uint byte ptr zero v = omega arith
get_uint-set_uint byte ptr (suc n) v =
    let first = set_uint-first byte ptr n v in
    let rest = get_uint-set_uint (set_byte byte ptr (v % 256)) (ptr + 1) n (v / 256) in
    let whole = mod_256 v (256 ^ n) (one-le-pow n 256 (omega arith)) in
    rw (pow-succ' 256 n) (omega (arith, first, rest, whole))

pub get_uint-agree :
    (b c : ℕ → ℕ) (ptr n : ℕ)
    → ((i : ℕ) → ptr ≤ i → i < ptr + n → b i ≡ c i)
    → get_uint b ptr n ≡ get_uint c ptr n
unfolding get_uint
get_uint-agree b c ptr zero h = refl
get_uint-agree b c ptr (suc n) h = omega (
  arith,
  h ptr (omega arith) (omega arith),
  get_uint-agree b c (ptr + 1) n (λ i p q. h i (omega arith) (omega arith)),
)
