-- ===== src/Cabi/Lanes.antt =====
-- runtime/src/cabi/lower.ts and lift.ts: how the flat values of a payload are converted to the lanes
-- of its variant and back. A lane value is typed by its lane: an integer for i32 and i64 (a number
-- or a bigint in the source), a float for f32 and f64.
pub mod RoundTrip
use polyengine.Base.{
  ℕ, ◌%◌, ◌^◌, ◌<◌, Bool, true, List, [], ◌∷◌, Result, ok, err, ◌>>=◌, ◌>>◌, assert,
  assertion_error, ltb,
}
use polyengine.Cabi.Types.{CoreType}
use polyengine.Cabi.Float.{
  Floats, decode_i32_as_float, decode_i64_as_float, encode_float_as_i32, encode_float_as_i64,
}

module _ (fl : Floats) where
  abbrev pub Lane : CoreType → Type 0
  Lane CoreType.i32 = ℕ
  Lane CoreType.i64 = ℕ
  Lane CoreType.f32 = fl.Number
  Lane CoreType.f64 = fl.Number

  abbrev pub Lanes : List CoreType → Type 0
  Lanes [] = Unit
  Lanes (t ∷ ts) = Lane t × Lanes ts

  -- `CoreValueIter.next`: what it asserts of a lane value.
  unfoldable pub next : (t : CoreType) → Lane t → Result (Lane t)
  next CoreType.i32 v = do assert (ltb v (2 ^ 32)) "expected canonical i32 lane value"; ok v
  next CoreType.i64 v = do assert (ltb v (2 ^ 64)) "expected canonical i64 lane value"; ok v
  next CoreType.f32 v = ok v
  next CoreType.f64 v = ok v

  -- The body of the loop in `lowerFlatVariant`.
  pub lower_lane : (have want : CoreType) → Lane have → Result (Lane want)
  lower_lane CoreType.f32 CoreType.i32 v = ok (encode_float_as_i32 fl v)
  lower_lane CoreType.i32 CoreType.i64 v = ok v
  lower_lane CoreType.f32 CoreType.i64 v = ok (encode_float_as_i32 fl v)
  lower_lane CoreType.f64 CoreType.i64 v = ok (encode_float_as_i64 fl v)
  lower_lane CoreType.i32 CoreType.i32 v = ok v
  lower_lane CoreType.i64 CoreType.i64 v = ok v
  lower_lane CoreType.f32 CoreType.f32 v = ok v
  lower_lane CoreType.f64 CoreType.f64 v = ok v
  lower_lane _ _ v = err (assertion_error "lane mismatch")

  pub wrap_i64_to_i32 : ℕ → Result ℕ
  wrap_i64_to_i32 i = do assert (ltb i (2 ^ 64)) "internal assertion failed"; ok (i % 2 ^ 32)

  -- `coerceIter.next` of `liftFlatVariant`, after the lane value has been read.
  pub coerce_lane : (have want : CoreType) → Lane have → Result (Lane want)
  coerce_lane CoreType.i32 CoreType.f32 x = ok (decode_i32_as_float fl x)
  coerce_lane CoreType.i64 CoreType.i32 x = wrap_i64_to_i32 x
  coerce_lane CoreType.i64 CoreType.f32 x = do i ← wrap_i64_to_i32 x; ok (decode_i32_as_float fl i)
  coerce_lane CoreType.i64 CoreType.f64 x = ok (decode_i64_as_float fl x)
  coerce_lane CoreType.i32 CoreType.i32 x = ok x
  coerce_lane CoreType.i64 CoreType.i64 x = ok x
  coerce_lane CoreType.f32 CoreType.f32 x = ok x
  coerce_lane CoreType.f64 CoreType.f64 x = ok x
  coerce_lane _ _ x = err (assertion_error "lane mismatch")

  pub lift_lane : (have want : CoreType) → Lane have → Result (Lane want)
  lift_lane have want v = do x ← next have v; coerce_lane have want x

  -- The lanes that wider cases use are filled with zeros of the lane type.
  pub pad : fl.Number → (ts : List CoreType) → Lanes ts
  pad zero [] = tt
  pad zero (CoreType.i32 ∷ ts) = (0, pad zero ts)
  pad zero (CoreType.i64 ∷ ts) = (0, pad zero ts)
  pad zero (CoreType.f32 ∷ ts) = (zero, pad zero ts)
  pad zero (CoreType.f64 ∷ ts) = (zero, pad zero ts)

  pub lower_lanes : fl.Number → (haves wants : List CoreType) → Lanes haves → Result (Lanes wants)
  lower_lanes zero [] wants vs = ok (pad zero wants)
  lower_lanes zero (have ∷ haves) [] vs = err (assertion_error "lane mismatch")
  lower_lanes zero (have ∷ haves) (want ∷ wants) vs = do
    x ← lower_lane have want vs.0
    xs ← lower_lanes zero haves wants vs.1
    ok (x, xs)

  -- The lanes that the payload does not use are read and dropped.
  pub skip_lanes : (wants : List CoreType) → Lanes wants → Result (Unit {0})
  skip_lanes [] vs = ok tt
  skip_lanes (want ∷ wants) vs = do x ← next want vs.0; skip_lanes wants vs.1

  pub lift_lanes : (haves wants : List CoreType) → Lanes wants → Result (Lanes haves)
  lift_lanes [] wants vs = do skip_lanes wants vs; ok tt
  lift_lanes (have ∷ haves) [] vs = err (assertion_error "lane mismatch")
  lift_lanes (have ∷ haves) (want ∷ wants) vs = do
    x ← lift_lane want have vs.0
    xs ← lift_lanes haves wants vs.1
    ok (x, xs)
