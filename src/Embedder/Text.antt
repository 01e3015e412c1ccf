-- ===== src/Embedder/Text.antt =====
-- Text as the list of its UTF-16 code units, and JavaScript's operations on it that the embedder uses.
pub mod Lemmas
use Prim.Native.Char.{code}
use Prim.Native.String.{String}
use polyengine.Base.{
  ℕ, zero, suc, ◌+◌, ◌-◌, ◌*◌, ◌/◌, ◌%◌, Bool, true, false, ◌&&◌, Option, none, some, List, [], ◌∷◌,
  ◌++◌, ltb, leb, ◌==◌, if◌then◌else◌,
}

abbrev pub Text : Type 0
Text = List ℕ

abbrev pub units : String → Text
units String.[] = []
units (String.◌∷◌ c s) = code c ∷ units s

unfoldable pub text_equal : Text → Text → Bool
text_equal [] [] = true
text_equal (x ∷ xs) (y ∷ ys) = (x == y) && text_equal xs ys
text_equal _ _ = false

-- `x < y`
unfoldable pub text_lt : Text → Text → Bool
text_lt [] [] = false
text_lt [] (y ∷ ys) = true
text_lt (x ∷ xs) [] = false
text_lt (x ∷ xs) (y ∷ ys) = let rest = text_lt xs ys in if x == y then rest else ltb x y

unfoldable pub is_empty {ℓ} : {A : Type ℓ} → List A → Bool
is_empty [] = true
is_empty (x ∷ xs) = false

unfoldable pub is_digit : ℕ → Bool
is_digit c = leb b'0' c && leb c b'9'

unfoldable pub take_while : (ℕ → Bool) → Text → Text
take_while p [] = []
take_while p (c ∷ cs) = let rest = take_while p cs in if p c then c ∷ rest else []

unfoldable pub drop_while : (ℕ → Bool) → Text → Text
drop_while p [] = []
drop_while p (c ∷ cs) = let rest = drop_while p cs in if p c then rest else c ∷ cs

unfoldable pub all_of : (ℕ → Bool) → Text → Bool
all_of p [] = true
all_of p (c ∷ cs) = p c && all_of p cs

-- `/^\d+$/`
unfoldable pub is_numeric : Text → Bool
is_numeric [] = false
is_numeric (c ∷ cs) = all_of is_digit (c ∷ cs)

unfoldable pub number_from : ℕ → Text → ℕ
number_from n [] = n
number_from n (c ∷ cs) = number_from (n * 10 + (c - b'0')) cs

-- `Number(digits)`
unfoldable pub number_of : Text → ℕ
number_of t = number_from 0 t

-- A number in decimal, with at most as many digits as the fuel.
unfoldable pub decimal_from : ℕ → ℕ → Text
decimal_from zero n = []
decimal_from (suc fuel) n =
    let rest = decimal_from fuel (n / 10) in
    if ltb n 10 then (b'0' + n) ∷ [] else rest ++ (b'0' + n % 10) ∷ []

-- `String(n)`
unfoldable pub decimal : ℕ → Text
decimal n = decimal_from (suc n) n

-- `t.split(c)`
unfoldable pub join_first : ℕ → List Text → List Text
join_first c [] = (c ∷ []) ∷ []
join_first c (t ∷ ts) = (c ∷ t) ∷ ts

unfoldable pub split_on : ℕ → Text → List Text
split_on s [] = [] ∷ []
split_on s (c ∷ cs) = let rest = split_on s cs in if c == s then [] ∷ rest else join_first c rest

-- The text before and after the last place of a unit.
unfoldable pub around : ℕ → ℕ → Text → Option (Text × Text) → Option (Text × Text)
around s c cs (some (base, after)) = some (c ∷ base, after)
around s c cs none = if c == s then some ([], cs) else none

unfoldable pub split_at_last : ℕ → Text → Option (Text × Text)
split_at_last s [] = none
split_at_last s (c ∷ cs) = around s c cs (split_at_last s cs)

-- `Map.get` and `Map.set` on maps that remember the order of insertion.
module _ {ℓ} {A : Type ℓ} where
  unfoldable pub lookup : Text → List (Text × A) → Option A
  lookup k [] = none
  lookup k ((j, a) ∷ m) = let rest = lookup k m in if text_equal j k then some a else rest

  unfoldable pub put : Text → A → List (Text × A) → List (Text × A)
  put k a [] = (k, a) ∷ []
  put k a ((j, b) ∷ m) =
      let rest = put k a m in if text_equal j k then (j, a) ∷ m else (j, b) ∷ rest
