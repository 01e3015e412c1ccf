-- ===== src/Cabi/Flatten/Variant.antt =====
-- The flat types of a variant have room for the payload of each case.
use polyengine.Base.{
  ℕ, zero, suc, ◌≡◌, refl, sym, subst, Option, none, some, List, [], ◌∷◌, ok, >>=-eq-ok,
  ok_injective, ◌⊎◌, inl, inr, arith,
}
use polyengine.Cabi.Types.{PtrType, CoreType, PrimKind, u8, u16, u32}
use polyengine.Cabi.Despecialized.{
  DespecializedType, variant, Payload, null, type, Cases, no_cases, case_then, case_count,
}
use polyengine.Cabi.Flatten.{
  join_lanes, discriminant_type, flatten_prim, flatten_type, flatten_cases,
}
use polyengine.Cabi.Flatten.Join.{
  LanesFit, LanesFit_refl, LanesFit_trans, join_lanes-LanesFit_left, join_lanes-LanesFit_right,
}

-- `cases[i].type`
abbrev pub case_type : Cases → ℕ → Option Payload
case_type no_cases i = none
case_type (case_then l t cs) zero = some t
case_type (case_then l t cs) (suc i) = case_type cs i

pub flatten_cases-LanesFit :
    (memory : Option PtrType) (cs : Cases) (start : List CoreType) {flat : List CoreType}
    → flatten_cases memory cs start ≡ ok flat
    → LanesFit start flat
unfolding flatten_cases
flatten_cases-LanesFit memory no_cases start e =
    subst (LanesFit start) (ok_injective e) (LanesFit_refl start)
flatten_cases-LanesFit memory (case_then l null cs) start e =
    flatten_cases-LanesFit memory cs start e
flatten_cases-LanesFit memory (case_then l (type t) cs) start {flat} e =
    let (payload, _, rest) = >>=-eq-ok (flatten_type memory t) _ e in
    LanesFit_trans start (join_lanes start payload) flat (join_lanes-LanesFit_left start payload)
      (flatten_cases-LanesFit memory cs (join_lanes start payload) rest)

payload-LanesFit :
    (memory : Option PtrType) (cs : Cases) (i : ℕ) (start : List CoreType) {t : DespecializedType}
    {flat : List CoreType}
    → flatten_cases memory cs start ≡ ok flat
    → case_type cs i ≡ some (type t)
    → (payload : List CoreType) × (flatten_type memory t ≡ ok payload) × LanesFit payload flat
unfolding flatten_cases
payload-LanesFit memory no_cases i start e h = cc
payload-LanesFit memory (case_then l null cs) zero start e h = cc
payload-LanesFit memory (case_then l null cs) (suc i) start e h =
    payload-LanesFit memory cs i start e h
payload-LanesFit memory (case_then l (type u) cs) zero start {t} {flat} e h =
    let (payload, p, rest) = >>=-eq-ok (flatten_type memory u) _ e in
    (
      payload,
      cc,
      LanesFit_trans payload (join_lanes start payload) flat
          (join_lanes-LanesFit_right start payload)
          (flatten_cases-LanesFit memory cs (join_lanes start payload) rest),
    )
payload-LanesFit memory (case_then l (type u) cs) (suc i) start e h =
    let (payload, _, rest) = >>=-eq-ok (flatten_type memory u) _ e in
    payload-LanesFit memory cs i (join_lanes start payload) rest h

discriminant_kinds :
    (n : ℕ) {kind : PrimKind}
    → discriminant_type n ≡ ok kind
    → (kind ≡ u8) ⊎ ((kind ≡ u16) ⊎ (kind ≡ u32))
unfolding discriminant_type
discriminant_kinds n e = ground arith

discriminant_lane :
    (memory : Option PtrType) (n : ℕ) {kind : PrimKind}
    → discriminant_type n ≡ ok kind
    → flatten_prim memory kind ≡ ok (CoreType.i32 ∷ [])
unfolding flatten_prim
discriminant_lane memory n e = elim (discriminant_kinds n e) [
  | inl k ↦ rw k refl
  | inr (inl k) ↦ rw k refl
  | inr (inr k) ↦ rw k refl
]

pub flatten_variant :
    (memory : Option PtrType) (cs : Cases) {flat : List CoreType}
    → flatten_type memory (variant cs) ≡ ok flat
    → (lanes : List CoreType) × (flatten_cases memory cs [] ≡ ok lanes)
      × (flat ≡ CoreType.i32 ∷ lanes)
unfolding flatten_type
flatten_variant memory cs e =
    let (lanes, p, rest) = >>=-eq-ok (flatten_cases memory cs []) _ e in
    let (kind, q, more) = >>=-eq-ok (discriminant_type (case_count cs)) _ rest in
    (lanes, p, sym (ok_injective (rw (discriminant_lane memory (case_count cs) q) at more)))

-- The flat types of a variant begin with an i32 lane for the discriminant. For each case with a
-- payload the flat types of the payload exist, and convert lane by lane to the lanes that follow.
pub flatten_type-LanesFit :
    (memory : Option PtrType) (cs : Cases) (i : ℕ) {t : DespecializedType} {flat : List CoreType}
    → flatten_type memory (variant cs) ≡ ok flat
    → case_type cs i ≡ some (type t)
    → (lanes : List CoreType) × (flat ≡ CoreType.i32 ∷ lanes)
      × (payload : List CoreType) × (flatten_type memory t ≡ ok payload)
      × LanesFit payload lanes
flatten_type-LanesFit memory cs i e h =
    let (lanes, p, first) = flatten_variant memory cs e in
    let (payload, r, fits) = payload-LanesFit memory cs i [] p h in (lanes, first, payload, r, fits)
