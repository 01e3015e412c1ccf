-- ===== src/Embedder/Version/Order.antt =====
-- The order of versions.
use polyengine.Base.{
  ℕ, zero, suc, ◌-◌, ◌<◌, ◌≡◌, refl, sym, ap, inl, inr, ℤ, pos, negsuc, true, List, [], ◌∷◌, arith,
  leb, Bool-cases,
}
use polyengine.Embedder.Text.{Text, number_of}
use polyengine.Embedder.Text.Lemmas.{text_equal_sym, text_lt_flip}
use polyengine.Embedder.Version.{
  Semver, difference, compare_identifier, or_else, compare_identifiers, compare_prerelease,
  compare_semver,
}

pub opposite : ℤ → ℤ
opposite (pos zero) = pos zero
opposite (pos (suc n)) = negsuc n
opposite (negsuc n) = pos (suc n)

opposite_positive : (n : ℕ) → 0 < n → opposite (pos n) ≡ negsuc (n - 1)
unfolding opposite
opposite_positive zero h = absurd (omega arith)
opposite_positive (suc n) h = let e : suc n - 1 ≡ n = omega arith in ap negsuc (sym e)

difference-opposite : (a b : ℕ) → difference b a ≡ opposite (difference a b)
unfolding difference opposite
difference-opposite a b = elim (Bool-cases (leb b a)) [
  | inl e ↦ elim (Bool-cases (leb a b)) [
    | inl f ↦
        let same : a ≡ b = ground arith in
        rw (e, f, same) (let none : b - b ≡ 0 = omega arith in rw none refl)
    | inr f ↦ rw (e, f) (sym (opposite_positive (a - b) (ground arith)))
  ]
  | inr e ↦
      let f : leb a b ≡ true = ground arith in
      let next : b - a ≡ suc (b - a - 1) = ground arith in rw (e, f) (ap pos next)
]

compare_identifier-opposite :
    (x y : Text) → compare_identifier y x ≡ opposite (compare_identifier x y)
unfolding compare_identifier opposite
compare_identifier-opposite x y =
    let same = text_equal_sym x y in
    let flip = text_lt_flip x y in
    let numbers = difference-opposite (number_of x) (number_of y) in ground arith

or_else-opposite : (c r : ℤ) → or_else (opposite c) (opposite r) ≡ opposite (or_else c r)
unfolding or_else opposite
or_else-opposite (pos zero) r = refl
or_else-opposite (pos (suc n)) r = refl
or_else-opposite (negsuc n) r = refl

compare_identifiers-opposite :
    (xs ys : List Text) → compare_identifiers ys xs ≡ opposite (compare_identifiers xs ys)
unfolding compare_identifiers opposite
compare_identifiers-opposite [] [] = refl
compare_identifiers-opposite [] (y ∷ ys) = refl
compare_identifiers-opposite (x ∷ xs) [] = refl
compare_identifiers-opposite (x ∷ xs) (y ∷ ys) =
    rw (compare_identifier-opposite x y, compare_identifiers-opposite xs ys)
      (or_else-opposite (compare_identifier x y) (compare_identifiers xs ys))

compare_prerelease-opposite :
    (xs ys : List Text) → compare_prerelease ys xs ≡ opposite (compare_prerelease xs ys)
unfolding compare_prerelease opposite
compare_prerelease-opposite [] [] = refl
compare_prerelease-opposite [] (y ∷ ys) = refl
compare_prerelease-opposite (x ∷ xs) [] = refl
compare_prerelease-opposite (x ∷ xs) (y ∷ ys) = compare_identifiers-opposite (x ∷ xs) (y ∷ ys)

-- Exchanging two versions, prereleases included, gives the opposite comparison.
pub compare_semver-opposite : (a b : Semver) → compare_semver b a ≡ opposite (compare_semver a b)
unfolding compare_semver
compare_semver-opposite a b =
    let pre = compare_prerelease-opposite a.prerelease b.prerelease in
    let patch = difference-opposite a.patch b.patch in
    let minor = difference-opposite a.minor b.minor in
    let major = difference-opposite a.major b.major in ground arith
