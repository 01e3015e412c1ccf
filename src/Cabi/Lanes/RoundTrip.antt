-- ===== src/Cabi/Lanes/RoundTrip.antt =====
-- A payload that was lowered into the lanes of its variant is lifted again unchanged.
use polyengine.Base.{ℕ, ◌^◌, ◌<◌, ◌≡◌, refl, ap, true, List, [], ◌∷◌, ok, arith}
use polyengine.Cabi.Types.{CoreType}
use polyengine.Cabi.Float.{
  Floats, encode_float_as_i32, encode_float_as_i64, decode-encode32, decode-encode64,
}
use polyengine.Cabi.Flatten.Join.{coerces, LanesFit}
use polyengine.Cabi.Lanes.{
  Lane, Lanes, next, lower_lane, coerce_lane, lift_lane, wrap_i64_to_i32, pad, lower_lanes,
  skip_lanes, lift_lanes,
}

module _ (fl : Floats) where
  -- The values that a lane can hold.
  abbrev pub IsLane : (t : CoreType) → Lane fl t → Type 0
  IsLane CoreType.i32 v = v < 2 ^ 32
  IsLane CoreType.i64 v = v < 2 ^ 64
  IsLane CoreType.f32 v = fl.IsFloat32 v
  IsLane CoreType.f64 v = Unit

  abbrev pub AreLanes : (ts : List CoreType) → Lanes fl ts → Type 0
  AreLanes [] vs = Unit
  AreLanes (t ∷ ts) vs = IsLane t vs.0 × AreLanes ts vs.1

  pub next-eq-ok : (t : CoreType) (v : Lane fl t) → IsLane t v → next fl t v ≡ ok v
  unfolding next
  next-eq-ok CoreType.i32 v h = ground arith
  next-eq-ok CoreType.i64 v h = ground arith
  next-eq-ok CoreType.f32 v h = refl
  next-eq-ok CoreType.f64 v h = refl

  abbrev Restores : (have want : CoreType) → Lane fl have → Type 0
  Restores have want v =
      (w : Lane fl want) × (lower_lane fl have want v ≡ ok w) × (lift_lane fl want have w ≡ ok v)

  wrap-eq-ok : (i : ℕ) → i < 2 ^ 32 → wrap_i64_to_i32 fl i ≡ ok i
  unfolding wrap_i64_to_i32
  wrap-eq-ok i h = ground arith

  lift_lane-next :
      (have want : CoreType) (w : Lane fl want) {v : Lane fl have}
      → IsLane want w
      → coerce_lane fl want have w ≡ ok v
      → lift_lane fl want have w ≡ ok v
  unfolding lift_lane
  lift_lane-next have want w h e = rw (next-eq-ok want w h) e

  -- A lane value is lowered to a value of the other lane, which is converted back.
  abbrev Carries : (have want : CoreType) → Lane fl have → Type 0
  Carries have want v =
      (w : Lane fl want) × (lower_lane fl have want v ≡ ok w)
      × IsLane want w
      × (coerce_lane fl want have w ≡ ok v)

  coerce_lane-lower_lane :
      (have want : CoreType) (v : Lane fl have)
      → coerces have want ≡ true
      → IsLane have v
      → Carries have want v
  unfolding coerces lower_lane coerce_lane
  coerce_lane-lower_lane CoreType.f32 CoreType.i32 v c h =
      let (e, lt) = decode-encode32 fl v h in (encode_float_as_i32 fl v, refl, lt, ap ok e)
  coerce_lane-lower_lane CoreType.i32 CoreType.i64 v c h = (v, refl, omega arith, wrap-eq-ok v h)
  coerce_lane-lower_lane CoreType.f32 CoreType.i64 v c h =
      let (e, lt) = decode-encode32 fl v h in
      (
        encode_float_as_i32 fl v,
        refl,
        omega arith,
        rw (wrap-eq-ok (encode_float_as_i32 fl v) lt) (ap ok e),
      )
  coerce_lane-lower_lane CoreType.f64 CoreType.i64 v c h =
      let (e, lt) = decode-encode64 fl v in (encode_float_as_i64 fl v, refl, lt, ap ok e)
  coerce_lane-lower_lane CoreType.i32 CoreType.i32 v c h = (v, refl, h, refl)
  coerce_lane-lower_lane CoreType.i64 CoreType.i64 v c h = (v, refl, h, refl)
  coerce_lane-lower_lane CoreType.f32 CoreType.f32 v c h = (v, refl, h, refl)
  coerce_lane-lower_lane CoreType.f64 CoreType.f64 v c h = (v, refl, h, refl)
  coerce_lane-lower_lane _ _ v c h = cc

  lift_lane-lower_lane :
      (have want : CoreType) (v : Lane fl have)
      → coerces have want ≡ true
      → IsLane have v
      → Restores have want v
  lift_lane-lower_lane have want v c h =
      let (w, lo, is, back) = coerce_lane-lower_lane have want v c h in
      (w, lo, lift_lane-next have want w is back)

  pub pad-AreLanes : (ts : List CoreType) → AreLanes ts (pad fl fl.nought ts)
  unfolding pad
  pad-AreLanes [] = tt
  pad-AreLanes (CoreType.i32 ∷ ts) = (omega arith, pad-AreLanes ts)
  pad-AreLanes (CoreType.i64 ∷ ts) = (omega arith, pad-AreLanes ts)
  pad-AreLanes (CoreType.f32 ∷ ts) = (fl.nought-IsFloat32, pad-AreLanes ts)
  pad-AreLanes (CoreType.f64 ∷ ts) = (tt, pad-AreLanes ts)

  -- The lanes of the variant are converted back to those of the payload, as far as these go.
  abbrev pub CoercesBack : (haves wants : List CoreType) → Lanes fl wants → Lanes fl haves → Type 0
  CoercesBack [] wants ws vs = Unit
  CoercesBack (have ∷ haves) [] ws vs = ⊥
  CoercesBack (have ∷ haves) (want ∷ wants) ws vs =
      (coerce_lane fl want have ws.0 ≡ ok vs.0) × CoercesBack haves wants ws.1 vs.1

  pub lower_lanes-CoercesBack :
      (haves wants : List CoreType) (vs : Lanes fl haves)
      → LanesFit haves wants
      → AreLanes haves vs
      → (ws : Lanes fl wants) × (lower_lanes fl fl.nought haves wants vs ≡ ok ws)
        × AreLanes wants ws
        × CoercesBack haves wants ws vs
  unfolding lower_lanes
  lower_lanes-CoercesBack [] wants vs fit h = (pad fl fl.nought wants, refl, pad-AreLanes wants, tt)
  lower_lanes-CoercesBack (have ∷ haves) [] vs fit h = absurd fit
  lower_lanes-CoercesBack (have ∷ haves) (want ∷ wants) vs fit h =
      let (w, lo, is, back) = coerce_lane-lower_lane have want vs.0 fit.0 h.0 in
      let (ws, los, are, backs) = lower_lanes-CoercesBack haves wants vs.1 fit.1 h.1 in
      ((w, ws), rw (lo, los) refl, (is, are), (back, backs))

  skip_lanes-pad :
      (zero : fl.Number) (ts : List CoreType) → skip_lanes fl ts (pad fl zero ts) ≡ ok tt
  unfolding skip_lanes pad next
  skip_lanes-pad zero [] = refl
  skip_lanes-pad zero (CoreType.i32 ∷ ts) = skip_lanes-pad zero ts
  skip_lanes-pad zero (CoreType.i64 ∷ ts) = skip_lanes-pad zero ts
  skip_lanes-pad zero (CoreType.f32 ∷ ts) = skip_lanes-pad zero ts
  skip_lanes-pad zero (CoreType.f64 ∷ ts) = skip_lanes-pad zero ts

  -- Where every lane of the payload converts to the variant's lane at its place, lowering the
  -- payload does not fail, and lifting what it returns gives the payload back.
  pub lift_lanes-lower_lanes :
      (zero : fl.Number) (haves wants : List CoreType) (vs : Lanes fl haves)
      → LanesFit haves wants
      → AreLanes haves vs
      → (ws : Lanes fl wants) × (lower_lanes fl zero haves wants vs ≡ ok ws)
        × (lift_lanes fl haves wants ws ≡ ok vs)
  unfolding lower_lanes lift_lanes
  lift_lanes-lower_lanes zero [] wants vs fit h =
      (pad fl zero wants, refl, rw (skip_lanes-pad zero wants))
  lift_lanes-lower_lanes zero (have ∷ haves) [] vs fit h = absurd fit
  lift_lanes-lower_lanes zero (have ∷ haves) (want ∷ wants) vs fit h =
      let (w, lo, li) = lift_lane-lower_lane have want vs.0 fit.0 h.0 in
      let (ws, los, lis) = lift_lanes-lower_lanes zero haves wants vs.1 fit.1 h.1 in
      ((w, ws), rw (lo, los), rw (li, lis))
