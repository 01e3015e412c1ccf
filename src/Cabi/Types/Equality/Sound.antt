-- ===== src/Cabi/Types/Equality/Sound.antt =====
-- `val_type_equal` decides whether two types are one, up to what their handle tables are compared by.
use mathlib.Core.Bool.{decide}
use text.Mathlib.TextEquality.{eq_iff}
use text.Mathlib.TextPositions.{eq_refl}
use polyengine.Base.{
  ℕ, ◌≡◌, refl, ap, ap₂, ◌↔◌, true, Option, none, some, List, [], ◌∷◌, String, arith, ==_iff,
  ==_refl, and_iff,
}
use polyengine.Cabi.Types.{
  PrimKind, ValType, prim, error_context, list, record_type, tuple, variant, enum, option, result,
  map, flags, own, borrow, stream, future, MaybeType, null, type, ValTypes, no_types, type_then,
  FieldTypes, no_fields, field_then, CaseTypes, no_cases, case_then,
}
use polyengine.Cabi.Types.Equality.{
  Identity, PrimKind-discrete, kinds_equal, labels_equal, lengths_equal, equal_by, maybe_equal,
  types_equal, fields_equal, cases_equal, key_of, val_type_equal,
}
use polyengine.Cabi.Types.Equality.Keyed.{
  keyed, keyed_types, keyed_fields, keyed_cases, keyed_maybe, same, maybe_equal-keyed,
}

kinds_equal_refl : (a : PrimKind) → kinds_equal a a ≡ true
unfolding kinds_equal decide PrimKind-discrete
kinds_equal_refl PrimKind.bool = refl
kinds_equal_refl _ = refl

kinds_equal-eq : (a b : PrimKind) → kinds_equal a b ≡ true → a ≡ b
unfolding kinds_equal
kinds_equal-eq a b h = ground arith

labels_equal_refl : (ls : List String) → labels_equal ls ls ≡ true
unfolding labels_equal
labels_equal_refl [] = refl
labels_equal_refl (l ∷ ls) = rw (eq_refl l, labels_equal_refl ls)

labels_equal-eq : (ls ms : List String) → labels_equal ls ms ≡ true → ls ≡ ms
unfolding labels_equal
labels_equal-eq [] [] h = refl
labels_equal-eq (l ∷ ls) (m ∷ ms) h = ground (arith, eq_iff l m, labels_equal-eq ls ms)
labels_equal-eq _ _ h = cc

lengths_equal_refl : (n : Option ℕ) → lengths_equal n n ≡ true
unfolding lengths_equal
lengths_equal_refl none = refl
lengths_equal_refl (some n) = ground arith

lengths_equal-eq : (m n : Option ℕ) → lengths_equal m n ≡ true → m ≡ n
unfolding lengths_equal
lengths_equal-eq none none h = refl
lengths_equal-eq (some m) (some n) h = ground arith
lengths_equal-eq _ _ h = cc

mutual
  unfolding equal_by

  equal_by_refl : (key : ℕ → ℕ) (a : ValType) → equal_by key a a ≡ true
  equal_by_refl key (prim a) = kinds_equal_refl a
  equal_by_refl key error_context = refl
  equal_by_refl key (list a n) = rw (lengths_equal_refl n, equal_by_refl key a)
  equal_by_refl key (record_type fs) = fields_equal_refl key fs
  equal_by_refl key (tuple ts) = types_equal_refl key ts
  equal_by_refl key (variant cs) = cases_equal_refl key cs
  equal_by_refl key (enum ls) = labels_equal_refl ls
  equal_by_refl key (option a) = equal_by_refl key a
  equal_by_refl key (result a e) = rw (maybe_equal_refl key a, maybe_equal_refl key e)
  equal_by_refl key (map k a) = rw (equal_by_refl key k, equal_by_refl key a)
  equal_by_refl key (flags ls) = labels_equal_refl ls
  equal_by_refl key (own r) = ==_refl (key r)
  equal_by_refl key (borrow r) = ==_refl (key r)
  equal_by_refl key (stream a) = maybe_equal_refl key a
  equal_by_refl key (future a) = maybe_equal_refl key a

  maybe_equal_refl : (key : ℕ → ℕ) (a : MaybeType) → maybe_equal key a a ≡ true
  maybe_equal_refl key null = refl
  maybe_equal_refl key (type a) = equal_by_refl key a

  types_equal_refl : (key : ℕ → ℕ) (ts : ValTypes) → types_equal key ts ts ≡ true
  types_equal_refl key no_types = refl
  types_equal_refl key (type_then a ts) = rw (equal_by_refl key a, types_equal_refl key ts)

  fields_equal_refl : (key : ℕ → ℕ) (fs : FieldTypes) → fields_equal key fs fs ≡ true
  fields_equal_refl key no_fields = refl
  fields_equal_refl key (field_then l a fs) =
      rw (eq_refl l, equal_by_refl key a, fields_equal_refl key fs)

  cases_equal_refl : (key : ℕ → ℕ) (cs : CaseTypes) → cases_equal key cs cs ≡ true
  cases_equal_refl key no_cases = refl
  cases_equal_refl key (case_then l a cs) =
      rw (eq_refl l, maybe_equal_refl key a, cases_equal_refl key cs)

labelled :
    {A B C : Type 0} (f : String → A → B → C) {l m : String} {a a' : A} {b b' : B}
    → l ≡ m
    → a ≡ a'
    → b ≡ b'
    → f l a b ≡ f m a' b'
labelled f p q r = cc

mutual
  unfolding equal_by keyed

  equal_by-eq : (key : ℕ → ℕ) (a b : ValType) → equal_by key a b ≡ true → keyed key a ≡ keyed key b
  equal_by-eq key (prim a) (prim b) h = ap prim (kinds_equal-eq a b h)
  equal_by-eq key error_context error_context h = refl
  equal_by-eq key (list a m) (list b n) h =
      let e = (and_iff _ _).0 h in ap₂ list (equal_by-eq key a b e.1) (lengths_equal-eq m n e.0)
  equal_by-eq key (record_type fs) (record_type gs) h = ap record_type (fields_equal-eq key fs gs h)
  equal_by-eq key (tuple ts) (tuple us) h = ap tuple (types_equal-eq key ts us h)
  equal_by-eq key (variant cs) (variant ds) h = ap variant (cases_equal-eq key cs ds h)
  equal_by-eq key (enum ls) (enum ms) h = ap enum (labels_equal-eq ls ms h)
  equal_by-eq key (option a) (option b) h = ap option (equal_by-eq key a b h)
  equal_by-eq key (result a e) (result b f) h =
      let p = (and_iff _ _).0 h in
      ap₂ result (maybe_equal-eq key a b p.0) (maybe_equal-eq key e f p.1)
  equal_by-eq key (map j a) (map k b) h =
      let e = (and_iff _ _).0 h in ap₂ map (equal_by-eq key j k e.0) (equal_by-eq key a b e.1)
  equal_by-eq key (flags ls) (flags ms) h = ap flags (labels_equal-eq ls ms h)
  equal_by-eq key (own r) (own s) h = ap own ((==_iff _ _).0 h)
  equal_by-eq key (borrow r) (borrow s) h = ap borrow ((==_iff _ _).0 h)
  equal_by-eq key (stream a) (stream b) h = ap stream (maybe_equal-eq key a b h)
  equal_by-eq key (future a) (future b) h = ap future (maybe_equal-eq key a b h)
  equal_by-eq key _ _ h = cc

  maybe_equal-eq :
      (key : ℕ → ℕ) (a b : MaybeType)
      → maybe_equal key a b ≡ true
      → keyed_maybe key a ≡ keyed_maybe key b
  maybe_equal-eq key null null h = refl
  maybe_equal-eq key (type a) (type b) h = ap type (equal_by-eq key a b h)
  maybe_equal-eq key _ _ h = cc

  types_equal-eq :
      (key : ℕ → ℕ) (ts us : ValTypes)
      → types_equal key ts us ≡ true
      → keyed_types key ts ≡ keyed_types key us
  types_equal-eq key no_types no_types h = refl
  types_equal-eq key (type_then a ts) (type_then b us) h =
      let e = (and_iff _ _).0 h in
      ap₂ type_then (equal_by-eq key a b e.0) (types_equal-eq key ts us e.1)
  types_equal-eq key _ _ h = cc

  fields_equal-eq :
      (key : ℕ → ℕ) (fs gs : FieldTypes)
      → fields_equal key fs gs ≡ true
      → keyed_fields key fs ≡ keyed_fields key gs
  fields_equal-eq key no_fields no_fields h = refl
  fields_equal-eq key (field_then l a fs) (field_then m b gs) h =
      let (p, rest) = (and_iff _ _).0 h in
      let e = (and_iff _ _).0 rest in
      labelled field_then ((eq_iff l m).0 p) (equal_by-eq key a b e.0)
        (fields_equal-eq key fs gs e.1)
  fields_equal-eq key _ _ h = cc

  cases_equal-eq :
      (key : ℕ → ℕ) (cs ds : CaseTypes)
      → cases_equal key cs ds ≡ true
      → keyed_cases key cs ≡ keyed_cases key ds
  cases_equal-eq key no_cases no_cases h = refl
  cases_equal-eq key (case_then l a cs) (case_then m b ds) h =
      let (p, rest) = (and_iff _ _).0 h in
      let e = (and_iff _ _).0 rest in
      labelled case_then ((eq_iff l m).0 p) (maybe_equal-eq key a b e.0)
        (cases_equal-eq key cs ds e.1)
  cases_equal-eq key _ _ h = cc

-- `val_type_equal` answers true exactly when the two types are one after each handle table is
-- replaced by what the chosen identity compares: the table itself, or the resource that it is for.
pub val_type_equal_iff :
    (resource_of : ℕ → ℕ) (identity : Identity) (a b : MaybeType)
    → (val_type_equal resource_of identity a b ≡ true)
      ↔ (keyed_maybe (key_of resource_of identity) a ≡ keyed_maybe (key_of resource_of identity) b)
unfolding val_type_equal
val_type_equal_iff resource_of identity a b =
    let key = key_of resource_of identity in
    (
      maybe_equal-eq key a b,
      λ e. rw (maybe_equal-keyed key a b, e) (maybe_equal_refl same (keyed_maybe key b)),
    )
