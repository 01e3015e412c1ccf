-- ===== src/Cabi/Types/Equality.antt =====
-- runtime/src/cabi/types.ts: `valTypeEqual`, structural equality of value types, by local handle
-- table or by the resource that the table is for.
pub mod Keyed
pub mod Sound
use mathlib.Core.Bool.{decide}
use text.Mathlib.Text.{◌==◌ as str_eq}
use text.Mathlib.TextEquality.{eq_iff}
use text.Mathlib.TextPositions.{eq_refl}
use polyengine.Base.{
  ℕ, ◌≡◌, refl, ap, ap₂, ◌↔◌, Bool, true, false, ◌&&◌, Option, none, some, List, [], ◌∷◌, String,
  arith, ◌==◌, ==_iff, ==_refl, and_iff,
}
use polyengine.Cabi.Types.{
  PrimKind, ValType, prim, error_context, list, record_type, tuple, variant, enum, option, result,
  map, flags, own, borrow, stream, future, MaybeType, null, type, ValTypes, no_types, type_then,
  FieldTypes, no_fields, field_then, CaseTypes, no_cases, case_then,
}

pub data Identity : Type 0 where
  local underlying : Identity

PrimKind-discrete : Discrete PrimKind
PrimKind-discrete = hlevel

kinds_equal : PrimKind → PrimKind → Bool
unfolding PrimKind-discrete decide
kinds_equal a b = decide (PrimKind-discrete a b)

labels_equal : List String → List String → Bool
labels_equal [] [] = true
labels_equal (x ∷ xs) (y ∷ ys) = str_eq x y && labels_equal xs ys
labels_equal _ _ = false

lengths_equal : Option ℕ → Option ℕ → Bool
lengths_equal none none = true
lengths_equal (some m) (some n) = m == n
lengths_equal _ _ = false

-- `key` is what two handle tables are compared by.
mutual
  unfolding kinds_equal labels_equal lengths_equal

  equal_by : (ℕ → ℕ) → ValType → ValType → Bool
  equal_by key (prim a) (prim b) = kinds_equal a b
  equal_by key error_context error_context = true
  equal_by key (list a m) (list b n) = lengths_equal m n && equal_by key a b
  equal_by key (record_type fs) (record_type gs) = fields_equal key fs gs
  equal_by key (tuple ts) (tuple us) = types_equal key ts us
  equal_by key (variant cs) (variant ds) = cases_equal key cs ds
  equal_by key (enum ls) (enum ms) = labels_equal ls ms
  equal_by key (option a) (option b) = equal_by key a b
  equal_by key (result a e) (result b f) = maybe_equal key a b && maybe_equal key e f
  equal_by key (map j a) (map k b) = equal_by key j k && equal_by key a b
  equal_by key (flags ls) (flags ms) = labels_equal ls ms
  equal_by key (own r) (own s) = key r == key s
  equal_by key (borrow r) (borrow s) = key r == key s
  equal_by key (stream a) (stream b) = maybe_equal key a b
  equal_by key (future a) (future b) = maybe_equal key a b
  equal_by key _ _ = false

  pub maybe_equal : (ℕ → ℕ) → MaybeType → MaybeType → Bool
  maybe_equal key null null = true
  maybe_equal key (type a) (type b) = equal_by key a b
  maybe_equal key _ _ = false

  types_equal : (ℕ → ℕ) → ValTypes → ValTypes → Bool
  types_equal key no_types no_types = true
  types_equal key (type_then a as') (type_then b bs) = equal_by key a b && types_equal key as' bs
  types_equal key _ _ = false

  fields_equal : (ℕ → ℕ) → FieldTypes → FieldTypes → Bool
  fields_equal key no_fields no_fields = true
  fields_equal key (field_then l a fs) (field_then m b gs) =
      str_eq l m && (equal_by key a b && fields_equal key fs gs)
  fields_equal key _ _ = false

  cases_equal : (ℕ → ℕ) → CaseTypes → CaseTypes → Bool
  cases_equal key no_cases no_cases = true
  cases_equal key (case_then l a cs) (case_then m b ds) =
      str_eq l m && (maybe_equal key a b && cases_equal key cs ds)
  cases_equal key _ _ = false

-- `resource_of` is the field `resource` of each `ResourceTableInfo`, which never changes.
abbrev pub key_of : (ℕ → ℕ) → Identity → ℕ → ℕ
key_of resource_of local rt = rt
key_of resource_of underlying rt = resource_of rt

unfoldable pub val_type_equal : (ℕ → ℕ) → Identity → MaybeType → MaybeType → Bool
unfolding equal_by
val_type_equal resource_of identity = maybe_equal (key_of resource_of identity)
