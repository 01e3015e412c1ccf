-- ===== src/Cabi/Types/Equality/Keyed.antt =====
-- Types with each handle table replaced by its key, which `equal_by` compares.
use polyengine.Base.{ℕ, ◌≡◌, refl}
use polyengine.Cabi.Types.{
  ValType, prim, error_context, list, record_type, tuple, variant, enum, option, result, map, flags,
  own, borrow, stream, future, MaybeType, null, type, ValTypes, no_types, type_then, FieldTypes,
  no_fields, field_then, CaseTypes, no_cases, case_then,
}
use polyengine.Cabi.Types.Equality.{equal_by, maybe_equal, types_equal, fields_equal, cases_equal}

-- A type with each handle table replaced by its key.
unfoldable mutual
  pub keyed : (ℕ → ℕ) → ValType → ValType
  keyed key (prim a) = prim a
  keyed key error_context = error_context
  keyed key (list a n) = list (keyed key a) n
  keyed key (record_type fs) = record_type (keyed_fields key fs)
  keyed key (tuple ts) = tuple (keyed_types key ts)
  keyed key (variant cs) = variant (keyed_cases key cs)
  keyed key (enum ls) = enum ls
  keyed key (option a) = option (keyed key a)
  keyed key (result a e) = result (keyed_maybe key a) (keyed_maybe key e)
  keyed key (map k a) = map (keyed key k) (keyed key a)
  keyed key (flags ls) = flags ls
  keyed key (own r) = own (key r)
  keyed key (borrow r) = borrow (key r)
  keyed key (stream a) = stream (keyed_maybe key a)
  keyed key (future a) = future (keyed_maybe key a)

  pub keyed_maybe : (ℕ → ℕ) → MaybeType → MaybeType
  keyed_maybe key null = null
  keyed_maybe key (type a) = type (keyed key a)

  pub keyed_types : (ℕ → ℕ) → ValTypes → ValTypes
  keyed_types key no_types = no_types
  keyed_types key (type_then a ts) = type_then (keyed key a) (keyed_types key ts)

  pub keyed_fields : (ℕ → ℕ) → FieldTypes → FieldTypes
  keyed_fields key no_fields = no_fields
  keyed_fields key (field_then l a fs) = field_then l (keyed key a) (keyed_fields key fs)

  pub keyed_cases : (ℕ → ℕ) → CaseTypes → CaseTypes
  keyed_cases key no_cases = no_cases
  keyed_cases key (case_then l a cs) = case_then l (keyed_maybe key a) (keyed_cases key cs)

abbrev pub same : ℕ → ℕ
same n = n

mutual
  unfolding equal_by keyed

  equal_by-keyed :
      (key : ℕ → ℕ) (a b : ValType) → equal_by key a b ≡ equal_by same (keyed key a) (keyed key b)
  equal_by-keyed key (prim a) (prim b) = refl
  equal_by-keyed key error_context error_context = refl
  equal_by-keyed key (list a m) (list b n) = rw (equal_by-keyed key a b)
  equal_by-keyed key (record_type fs) (record_type gs) = fields_equal-keyed key fs gs
  equal_by-keyed key (tuple ts) (tuple us) = types_equal-keyed key ts us
  equal_by-keyed key (variant cs) (variant ds) = cases_equal-keyed key cs ds
  equal_by-keyed key (enum ls) (enum ms) = refl
  equal_by-keyed key (option a) (option b) = equal_by-keyed key a b
  equal_by-keyed key (result a e) (result b f) =
      rw (maybe_equal-keyed key a b, maybe_equal-keyed key e f)
  equal_by-keyed key (map j a) (map k b) = rw (equal_by-keyed key j k, equal_by-keyed key a b)
  equal_by-keyed key (flags ls) (flags ms) = refl
  equal_by-keyed key (own r) (own s) = refl
  equal_by-keyed key (borrow r) (borrow s) = refl
  equal_by-keyed key (stream a) (stream b) = maybe_equal-keyed key a b
  equal_by-keyed key (future a) (future b) = maybe_equal-keyed key a b
  equal_by-keyed key _ _ = refl

  pub maybe_equal-keyed :
      (key : ℕ → ℕ) (a b : MaybeType)
      → maybe_equal key a b ≡ maybe_equal same (keyed_maybe key a) (keyed_maybe key b)
  maybe_equal-keyed key null null = refl
  maybe_equal-keyed key (type a) (type b) = equal_by-keyed key a b
  maybe_equal-keyed key _ _ = refl

  types_equal-keyed :
      (key : ℕ → ℕ) (ts us : ValTypes)
      → types_equal key ts us ≡ types_equal same (keyed_types key ts) (keyed_types key us)
  types_equal-keyed key no_types no_types = refl
  types_equal-keyed key (type_then a ts) (type_then b us) =
      rw (equal_by-keyed key a b, types_equal-keyed key ts us)
  types_equal-keyed key _ _ = refl

  fields_equal-keyed :
      (key : ℕ → ℕ) (fs gs : FieldTypes)
      → fields_equal key fs gs ≡ fields_equal same (keyed_fields key fs) (keyed_fields key gs)
  fields_equal-keyed key no_fields no_fields = refl
  fields_equal-keyed key (field_then l a fs) (field_then m b gs) =
      rw (equal_by-keyed key a b, fields_equal-keyed key fs gs)
  fields_equal-keyed key _ _ = refl

  cases_equal-keyed :
      (key : ℕ → ℕ) (cs ds : CaseTypes)
      → cases_equal key cs ds ≡ cases_equal same (keyed_cases key cs) (keyed_cases key ds)
  cases_equal-keyed key no_cases no_cases = refl
  cases_equal-keyed key (case_then l a cs) (case_then m b ds) =
      rw (maybe_equal-keyed key a b, cases_equal-keyed key cs ds)
  cases_equal-keyed key _ _ = refl
