-- ===== src/Cabi/Flatten/Tests.antt =====
-- Flat types of concrete types, and the theorems at them.
use polyengine.Base.{ℕ, ◌≤◌, ◌≡◌, refl, true, none, some, List, [], ◌∷◌, ok, err, assertion_error}
use polyengine.Cabi.Types.{PtrType, CoreType, u32, u64, f32, string}
use polyengine.Cabi.Despecialized.{
  prim, list, variant, null, type, Cases, no_cases, case_then, discriminant_size, case_count,
}
use polyengine.Cabi.Flatten.{
  join, join_lanes, repeat, discriminant_type, flatten_prim, flatten_type, flatten_types,
  spill_params, spill_results, out_param, flatten_async, flatten_functype, FlattenOptions, FuncType,
  lower,
}
use polyengine.Cabi.Flatten.Join.{LanesFit}
use polyengine.Cabi.Flatten.Variant.{flatten_type-LanesFit}
use polyengine.Cabi.Flatten.Functype.{flatten_functype_bounds, param_limit}

-- What a test of the flattening code unfolds.
flatten_code : ℕ
unfolding flatten_functype flatten_async out_param spill_results spill_params flatten_types
    flatten_type flatten_prim discriminant_type repeat join_lanes join discriminant_size case_count
flatten_code = 0

abbrev mixed_cases : Cases
mixed_cases = case_then "nothing" null (
    case_then "single" (type (prim f32))
      (case_then "wide" (type (prim u64)) (case_then "text" (type (prim string)) no_cases)))

mixed_lanes :
    flatten_type (some PtrType.i32) (variant mixed_cases)
    ≡ ok (CoreType.i32 ∷ CoreType.i64 ∷ CoreType.i32 ∷ [])
unfolding flatten_code
mixed_lanes = refl

memory_needed :
    flatten_type none (prim string) ≡ err (assertion_error "canonical option `memory` required")
unfolding flatten_code
memory_needed = refl

flatten_type-LanesFit_example :
    (lanes : List CoreType) × (◌≡◌ {A = List CoreType}
      (CoreType.i32 ∷ CoreType.i64 ∷ CoreType.i32 ∷ [])
      (CoreType.i32 ∷ lanes))
    × (payload : List CoreType) × (flatten_type (some PtrType.i32) (prim f32) ≡ ok payload)
    × LanesFit payload lanes
flatten_type-LanesFit_example =
    flatten_type-LanesFit (some PtrType.i32) mixed_cases 1 mixed_lanes refl

abbrev many_words : FuncType
many_words = record { params = list (prim u32) (some 6) ∷ []; results = prim string ∷ [] }

abbrev async_options : FlattenOptions
async_options = record { memory = some PtrType.i64; is_async = true; has_callback = true }

many_words_lowered :
    flatten_functype async_options many_words lower
    ≡ ok (record { params = CoreType.i64 ∷ CoreType.i64 ∷ []; results = CoreType.i32 ∷ [] })
unfolding flatten_code
many_words_lowered = refl

flatten_functype_bounds_example : (2 ≤ param_limit true lower) × (1 ≤ 1)
flatten_functype_bounds_example =
    flatten_functype_bounds async_options many_words lower many_words_lowered
