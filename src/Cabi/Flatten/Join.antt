-- ===== src/Cabi/Flatten/Join.antt =====
-- The lanes that `lowerFlatVariant` (lower.ts) and `liftFlatVariant` (lift.ts) convert between, and
-- how `join` chooses them.
use polyengine.Base.{◌≡◌, refl, Bool, true, false, List, [], ◌∷◌, arith}
use polyengine.Cabi.Types.{CoreType}
use polyengine.Cabi.Flatten.{join, join_lanes}

-- The pairs of lane types, of a payload and of the variant, for which the conversion does not fail.
unfoldable pub coerces : CoreType → CoreType → Bool
coerces CoreType.i32 CoreType.i32 = true
coerces CoreType.i64 CoreType.i64 = true
coerces CoreType.f32 CoreType.f32 = true
coerces CoreType.f64 CoreType.f64 = true
coerces CoreType.f32 CoreType.i32 = true
coerces CoreType.i32 CoreType.i64 = true
coerces CoreType.f32 CoreType.i64 = true
coerces CoreType.f64 CoreType.i64 = true
coerces _ _ = false

pub coerces_refl : (a : CoreType) → coerces a a ≡ true
unfolding coerces
coerces_refl CoreType.i32 = refl
coerces_refl _ = refl

pub coerces_trans :
    (a b c : CoreType) → coerces a b ≡ true → coerces b c ≡ true → coerces a c ≡ true
unfolding coerces
coerces_trans a b c h k = ground arith

-- `join` is the least upper bound of two lane types in the order of conversion: both convert to
-- it, and it converts to every lane type that both convert to.
pub join_least :
    (a b : CoreType)
    → (coerces a (join a b) ≡ true)
      × (coerces b (join a b) ≡ true)
      × ((c : CoreType) → coerces a c ≡ true → coerces b c ≡ true → coerces (join a b) c ≡ true)
unfolding coerces join
join_least a b = (ground arith, ground arith, λ c h k. ground arith)

-- Every lane of the first sequence converts to the lane at its place in the second.
abbrev pub LanesFit : List CoreType → List CoreType → Type 0
LanesFit [] wants = Unit
LanesFit (have ∷ haves) (want ∷ wants) = (coerces have want ≡ true) × LanesFit haves wants
LanesFit (have ∷ haves) [] = ⊥

pub LanesFit_refl : (xs : List CoreType) → LanesFit xs xs
LanesFit_refl [] = tt
LanesFit_refl (x ∷ xs) = (coerces_refl x, LanesFit_refl xs)

pub LanesFit_trans : (xs ys zs : List CoreType) → LanesFit xs ys → LanesFit ys zs → LanesFit xs zs
LanesFit_trans [] ys zs h k = tt
LanesFit_trans (x ∷ xs) (y ∷ ys) (z ∷ zs) h k =
    (coerces_trans x y z h.0 k.0, LanesFit_trans xs ys zs h.1 k.1)
LanesFit_trans (x ∷ xs) (y ∷ ys) [] h k = absurd k
LanesFit_trans (x ∷ xs) [] zs h k = absurd h

pub join_lanes-LanesFit_left : (xs ys : List CoreType) → LanesFit xs (join_lanes xs ys)
unfolding join_lanes
join_lanes-LanesFit_left [] ys = tt
join_lanes-LanesFit_left (x ∷ xs) [] = LanesFit_refl (x ∷ xs)
join_lanes-LanesFit_left (x ∷ xs) (y ∷ ys) = ((join_least x y).0, join_lanes-LanesFit_left xs ys)

pub join_lanes-LanesFit_right : (xs ys : List CoreType) → LanesFit ys (join_lanes xs ys)
unfolding join_lanes
join_lanes-LanesFit_right [] ys = LanesFit_refl ys
join_lanes-LanesFit_right (x ∷ xs) [] = tt
join_lanes-LanesFit_right (x ∷ xs) (y ∷ ys) = ((join_least x y).1, join_lanes-LanesFit_right xs ys)
