-- ===== src/Embedder/Text/Lemmas.antt =====
-- Comparing texts, decimal numbers, and splitting at the last place of a unit.
use polyengine.Base.{
  ℕ, zero, suc, ◌+◌, ◌-◌, ◌*◌, ◌/◌, ◌≤◌, ◌<◌, ◌≡◌, refl, sym, ap, ap₂, ◌∙◌, inl, inr, Bool, true,
  false, not, none, some, List, [], ◌∷◌, ◌++◌, arith, ltb, ◌==◌, if◌then◌else◌, Bool-cases, and_iff,
  ==_iff, ==_refl,
}
use polyengine.Embedder.Text.{
  Text, text_equal, text_lt, is_empty, is_digit, take_while, drop_while, all_of, is_numeric,
  number_from, number_of, decimal_from, decimal, around, split_at_last, lookup, put,
}

pub text_equal-eq : (x y : Text) → text_equal x y ≡ true → x ≡ y
unfolding text_equal
text_equal-eq [] [] h = refl
text_equal-eq [] (y ∷ ys) h = cc
text_equal-eq (x ∷ xs) [] h = cc
text_equal-eq (x ∷ xs) (y ∷ ys) h =
    let (e, rest) = (and_iff _ _).0 h in
    ap₂ (λ a rest. a ∷ rest) ((==_iff x y).0 e) (text_equal-eq xs ys rest)

pub text_equal_refl : (x : Text) → text_equal x x ≡ true
unfolding text_equal
text_equal_refl [] = refl
text_equal_refl (x ∷ xs) = rw (==_refl x, text_equal_refl xs) refl

pub text_equal_sym : (x y : Text) → text_equal y x ≡ text_equal x y
unfolding text_equal
text_equal_sym [] [] = refl
text_equal_sym [] (y ∷ ys) = refl
text_equal_sym (x ∷ xs) [] = refl
text_equal_sym (x ∷ xs) (y ∷ ys) = let rest = text_equal_sym xs ys in ground arith

-- Of two different texts one is less than the other.
pub text_lt_flip : (x y : Text) → text_equal x y ≡ false → text_lt y x ≡ not (text_lt x y)
unfolding text_equal text_lt
text_lt_flip [] [] h = cc
text_lt_flip [] (y ∷ ys) h = refl
text_lt_flip (x ∷ xs) [] h = refl
text_lt_flip (x ∷ xs) (y ∷ ys) h = let rest = text_lt_flip xs ys in ground arith

pub all_of-append :
    (p : ℕ → Bool) (xs ys : Text)
    → all_of p xs ≡ true
    → all_of p ys ≡ true
    → all_of p (xs ++ ys) ≡ true
unfolding all_of
all_of-append p [] ys h k = k
all_of-append p (x ∷ xs) ys h k =
    let (first, rest) = (and_iff _ _).0 h in (and_iff _ _).1 (first, all_of-append p xs ys rest k)

pub take_while-all :
    (p : ℕ → Bool) (t : Text) → all_of p t ≡ true → (take_while p t ≡ t) × (drop_while p t ≡ [])
unfolding all_of take_while drop_while
take_while-all p [] h = (refl, refl)
take_while-all p (c ∷ cs) h =
    let (first, rest) = (and_iff (p c) _).0 h in
    let (t, d) = take_while-all p cs rest in rw (first, t, d) (refl, refl)

number_from-append :
    (n : ℕ) (xs ys : Text) → number_from n (xs ++ ys) ≡ number_from (number_from n xs) ys
unfolding number_from
number_from-append n [] ys = refl
number_from-append n (x ∷ xs) ys = number_from-append (n * 10 + (x - 48)) xs ys

decimal_from-digits : (fuel n : ℕ) → all_of is_digit (decimal_from fuel n) ≡ true
unfolding decimal_from all_of is_digit
decimal_from-digits zero n = refl
decimal_from-digits (suc fuel) n = elim (Bool-cases (ltb n 10)) [
  | inl e ↦ rw e (ground arith)
  | inr e ↦ rw e (
      all_of-append _ (decimal_from fuel (n / 10)) _ (decimal_from-digits fuel (n / 10))
        (ground arith))
]

decimal_from-number : (fuel n : ℕ) → n < fuel → number_from 0 (decimal_from fuel n) ≡ n
unfolding decimal_from number_from
decimal_from-number zero n h = absurd (omega arith)
decimal_from-number (suc fuel) n h = elim (Bool-cases (ltb n 10)) [
  | inl e ↦ rw e (omega arith)
  | inr e ↦
      let large : 10 ≤ n = ground arith in
      let rest = decimal_from-number fuel (n / 10) (omega arith) in
      rw e (number_from-append 0 (decimal_from fuel (n / 10)) _ ∙ omega (arith, rest))
]

-- A number is read back from its decimal text, which has digits only.
pub decimal-number : (n : ℕ) → (number_of (decimal n) ≡ n) × (all_of is_digit (decimal n) ≡ true)
unfolding number_of decimal
decimal-number n = (decimal_from-number (suc n) n (omega arith), decimal_from-digits (suc n) n)

last_digit-numeric : (xs : Text) (d : ℕ) → is_empty (xs ++ d ∷ []) ≡ false
unfolding is_empty
last_digit-numeric [] d = refl
last_digit-numeric (x ∷ xs) d = refl

decimal-nonempty : (n : ℕ) → is_empty (decimal n) ≡ false
unfolding decimal decimal_from is_empty
decimal-nonempty n = elim (Bool-cases (ltb n 10)) [
  | inl e ↦ rw e refl
  | inr e ↦ rw e (last_digit-numeric (decimal_from n (n / 10)) _)
]

numeric_of_digits : (t : Text) → is_empty t ≡ false → all_of is_digit t ≡ true → is_numeric t ≡ true
unfolding is_numeric is_empty
numeric_of_digits [] h k = cc
numeric_of_digits (c ∷ cs) h k = k

pub decimal-numeric : (n : ℕ) → (is_numeric (decimal n) ≡ true) × (is_empty (decimal n) ≡ false)
decimal-numeric n =
    (numeric_of_digits (decimal n) (decimal-nonempty n) (decimal-number n).1, decimal-nonempty n)

split_at_last-none :
    (s : ℕ) (t : Text) → all_of (λ c. not (c == s)) t ≡ true → split_at_last s t ≡ none
unfolding split_at_last around all_of
split_at_last-none s [] h = refl
split_at_last-none s (c ∷ cs) h =
    let (first, rest) = (and_iff (not (c == s)) (all_of (λ c. not (c == s)) cs)).0 h in
    let e : (c == s) ≡ false = ground arith in rw (split_at_last-none s cs rest, e) refl

pub split_at_last-append :
    (s : ℕ) (base t : Text)
    → all_of (λ c. not (c == s)) t ≡ true
    → split_at_last s (base ++ s ∷ t) ≡ some (base, t)
unfolding split_at_last around
split_at_last-append s [] t h = rw (split_at_last-none s t h, ==_refl s) refl
split_at_last-append s (c ∷ base) t h = rw (split_at_last-append s base t h) refl

module _ {ℓ} {A : Type ℓ} where
  pub lookup-put :
      (t k : Text) (a : A) (m : List (Text × A))
      → lookup t (put k a m) ≡ (if text_equal k t then some a else lookup t m)
  unfolding lookup put
  lookup-put t k a [] = refl
  lookup-put t k a ((j, b) ∷ m) = elim (Bool-cases (text_equal j k)) [
    | inl e ↦ let same = text_equal-eq j k e in rw (e, same) (ground arith)
    | inr e ↦ elim (Bool-cases (text_equal j t)) [
      | inl f ↦
          let apart : text_equal k t ≡ false =
            ap (text_equal k) (sym (text_equal-eq j t f)) ∙ text_equal_sym j k ∙ e in
          rw (e, f, apart) refl
      | inr f ↦ rw (e, f) (lookup-put t k a m)
    ]
  ]
