-- ===== src/Cabi/Types/Despecialize/Sound.antt =====
-- `despecialize` is one step of `despecialize_all`.
use polyengine.Base.{ℕ, ◌+◌, ◌≡◌, refl, ap, List, [], ◌∷◌, String}
use polyengine.Cabi.Despecialized.{DespecializedType, Payload, Fields, Cases}
use polyengine.Cabi.Types.{ValType, tuple, enum, ValTypes, no_types, type_then}
use polyengine.Cabi.Types.Despecialize.{
  index_label, tuple_fields, enum_cases, despecialize, all_enum_cases, despecialize_all,
  all_tuple_fields, all_fields, all_cases,
}

all_fields-tuple_fields :
    (i : ℕ) (ts : ValTypes) → all_fields (tuple_fields i ts) ≡ all_tuple_fields ts i
unfolding despecialize_all tuple_fields
all_fields-tuple_fields i no_types = refl
all_fields-tuple_fields i (type_then t ts) =
    ap (Fields.field_then (index_label i) (despecialize_all t)) (all_fields-tuple_fields (i + 1) ts)

all_cases-enum_cases : (ls : List String) → all_cases (enum_cases ls) ≡ all_enum_cases ls
unfolding despecialize_all enum_cases
all_cases-enum_cases [] = refl
all_cases-enum_cases (l ∷ ls) = ap (Cases.case_then l Payload.null) (all_cases-enum_cases ls)

-- Despecializing the outermost type first leaves the despecialization of all types unchanged.
pub despecialize_all-despecialize :
    (t : ValType) → despecialize_all (despecialize t) ≡ despecialize_all t
unfolding despecialize despecialize_all
despecialize_all-despecialize (tuple ts) =
    ap DespecializedType.record_type (all_fields-tuple_fields 0 ts)
despecialize_all-despecialize (enum ls) = ap DespecializedType.variant (all_cases-enum_cases ls)
despecialize_all-despecialize _ = refl
