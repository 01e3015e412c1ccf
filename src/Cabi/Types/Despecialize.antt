-- ===== src/Cabi/Types/Despecialize.antt =====
-- runtime/src/cabi/types.ts: `despecialize`, and the types that are left when it has been applied
-- to a type and to all types below it.
pub mod Sound
use Prim.Native.String
use polyengine.Base.{
  ℕ, zero, suc, ◌+◌, ◌/◌, ◌%◌, ◌^◌, ◌&&◌, Option, none, List, [], ◌∷◌, String, Result, ok, err,
  error, ltb, leb, ◌==◌, if◌then◌else◌,
}
use polyengine.Cabi.Despecialized.{DespecializedType, Payload, Fields, Cases}
use polyengine.Cabi.Types.{
  PrimKind, ValType, prim, error_context, list, record_type, tuple, variant, enum, option, result,
  map, flags, own, borrow, stream, future, MaybeType, null, type, ValTypes, no_types, type_then,
  FieldTypes, no_fields, field_then, CaseTypes, no_cases, case_then,
}

digit : ℕ → String
digit n =
    if n == 0
    then "0"
    else if n == 1
    then "1"
    else if n == 2
    then "2"
    else if n == 3
    then "3"
    else if n == 4
    then "4"
    else if n == 5
    then "5"
    else if n == 6
    then "6"
    else if n == 7
    then "7"
    else if n == 8
    then "8"
    else "9"

decimal : ℕ → ℕ → String
decimal zero n = digit (n % 10)
decimal (suc fuel) n =
    let rest = decimal fuel (n / 10) in
    if ltb n 10 then digit n else String.◌++◌ rest (digit (n % 10))

-- JavaScript's `String(i)` of an array index. A number has fewer digits than its value.
unfoldable pub index_label : ℕ → String
unfolding decimal digit
index_label i = decimal i i

tuple_fields : ℕ → ValTypes → FieldTypes
tuple_fields i no_types = no_fields
tuple_fields i (type_then t ts) = field_then (index_label i) t (tuple_fields (i + 1) ts)

enum_cases : List String → CaseTypes
enum_cases [] = no_cases
enum_cases (l ∷ ls) = case_then l null (enum_cases ls)

-- One level. A map becomes a list of the despecialized pair type.
pub despecialize : ValType → ValType
unfolding tuple_fields enum_cases
despecialize (tuple ts) = record_type (tuple_fields 0 ts)
despecialize (enum ls) = variant (enum_cases ls)
despecialize (option t) = variant (case_then "none" null (case_then "some" (type t) no_cases))
despecialize (result t e) = variant (case_then "ok" t (case_then "error" e no_cases))
despecialize (map k t) =
    list (record_type (tuple_fields 0 (type_then k (type_then t no_types)))) none
despecialize (prim p) = prim p
despecialize error_context = error_context
despecialize (list t n) = list t n
despecialize (record_type fs) = record_type fs
despecialize (variant cs) = variant cs
despecialize (flags ls) = flags ls
despecialize (own r) = own r
despecialize (borrow r) = borrow r
despecialize (stream t) = stream t
despecialize (future t) = future t

all_enum_cases : List String → Cases
all_enum_cases [] = Cases.no_cases
all_enum_cases (l ∷ ls) = Cases.case_then l Payload.null (all_enum_cases ls)

unfoldable mutual
  unfolding all_enum_cases

  pub despecialize_all : ValType → DespecializedType
  despecialize_all (prim p) = DespecializedType.prim p
  despecialize_all error_context = DespecializedType.error_context
  despecialize_all (list t n) = DespecializedType.list (despecialize_all t) n
  despecialize_all (record_type fs) = DespecializedType.record_type (all_fields fs)
  despecialize_all (tuple ts) = DespecializedType.record_type (all_tuple_fields ts 0)
  despecialize_all (variant cs) = DespecializedType.variant (all_cases cs)
  despecialize_all (enum ls) = DespecializedType.variant (all_enum_cases ls)
  despecialize_all (option t) = DespecializedType.variant (
      Cases.case_then "none" Payload.null
        (Cases.case_then "some" (Payload.type (despecialize_all t)) Cases.no_cases))
  despecialize_all (result t e) =
      DespecializedType.variant
        (Cases.case_then "ok" (all_maybe t) (Cases.case_then "error" (all_maybe e) Cases.no_cases))
  despecialize_all (map k t) =
      DespecializedType.list
        (DespecializedType.record_type (
          Fields.field_then (index_label 0) (despecialize_all k)
            (Fields.field_then (index_label 1) (despecialize_all t) Fields.no_fields)))
        none
  despecialize_all (flags ls) = DespecializedType.flags ls
  despecialize_all (own r) = DespecializedType.own r
  despecialize_all (borrow r) = DespecializedType.borrow r
  despecialize_all (stream t) = DespecializedType.stream (all_maybe t)
  despecialize_all (future t) = DespecializedType.future (all_maybe t)

  all_maybe : MaybeType → Payload
  all_maybe null = Payload.null
  all_maybe (type t) = Payload.type (despecialize_all t)

  all_tuple_fields : ValTypes → ℕ → Fields
  all_tuple_fields no_types i = Fields.no_fields
  all_tuple_fields (type_then t ts) i =
      Fields.field_then (index_label i) (despecialize_all t) (all_tuple_fields ts (i + 1))

  all_fields : FieldTypes → Fields
  all_fields no_fields = Fields.no_fields
  all_fields (field_then l t fs) = Fields.field_then l (despecialize_all t) (all_fields fs)

  all_cases : CaseTypes → Cases
  all_cases no_cases = Cases.no_cases
  all_cases (case_then l t cs) = Cases.case_then l (all_maybe t) (all_cases cs)
