-- ===== src/Cabi/Lower/Tests.antt =====
-- A record with a variant whose payload is a float in an i32 lane.
use polyengine.Base.{◌≡◌, refl, some, pos, [], ◌∷◌, List, ok, err, assertion_error}
use polyengine.Cabi.Types.{PtrType, CoreType, u8}
use polyengine.Cabi.Despecialized.{prim, discriminant_size, case_count}
use polyengine.Cabi.Flatten.{flatten_prim, flatten_type, join_lanes, discriminant_type}
use polyengine.Cabi.Float.Sample.{samples, one}
use polyengine.Cabi.Lanes.{Lanes, next}
use polyengine.Cabi.Lanes.RoundTrip.{AreLanes}
use polyengine.Cabi.Value.{Value, int, object, case_of, no_members, member, member_of, integer}
use polyengine.Cabi.Access.{HostValue, label_count, first_index}
use polyengine.Cabi.Lift.{
  of_core, core_next, next_natural, lift_flat, lift_flat_prim, lift_flat_unsigned32,
}
use polyengine.Cabi.Lower.{to_cores, lower_flat}
use polyengine.Cabi.Lower.RoundTrip.{lift_flat-lower_flat}
use polyengine.Cabi.Store.Typing.{Typed, PrimTyped, IntTyped}
use polyengine.Cabi.Memory.{fits_in_width}
use polyengine.Cabi.Store.Tests.{
  sample_host, start, reading, reading_layout, compute_layout-reading,
}

abbrev level : HostValue sample_host
level =
    object
      (member "unit" (int (pos 7)) (member "level" (case_of "known" (Value.float one)) no_members))

level-Typed : Typed sample_host reading level
unfolding Typed PrimTyped IntTyped fits_in_width member_of label_count first_index
level-Typed = (
  _,
  refl,
  (_, refl, (pos 7, refl, refl), (_, refl, ("known", _, refl, refl, (one, refl, tt)), refl)),
)

abbrev reading_lanes : List CoreType
reading_lanes = CoreType.i32 ∷ CoreType.i32 ∷ CoreType.f32 ∷ []

flatten_type-reading : flatten_type (some PtrType.i32) reading ≡ ok reading_lanes
unfolding flatten_type flatten_prim join_lanes discriminant_type discriminant_size case_count
flatten_type-reading = refl

lift_flat-lower_flat_example :
    (vs : Lanes samples reading_lanes) × AreLanes samples reading_lanes vs
    × (lower_flat sample_host reading start level ≡ ok (to_cores samples reading_lanes vs, start))
    × (lift_flat sample_host (core_next samples) reading start (to_cores samples reading_lanes vs)
        ≡ ok ((level, []), start))
lift_flat-lower_flat_example =
    lift_flat-lower_flat sample_host reading start start level {l = reading_layout}
      {flat = reading_lanes} level-Typed compute_layout-reading flatten_type-reading refl

-- An i32 lane that is not canonical is refused.
wide_lane :
    lift_flat sample_host (core_next samples) (prim u8) start (integer (pos 4294967296) ∷ [])
    ≡ err (assertion_error "expected canonical i32 lane value")
unfolding lift_flat lift_flat_prim lift_flat_unsigned32 next_natural core_next of_core next
wide_lane = refl
