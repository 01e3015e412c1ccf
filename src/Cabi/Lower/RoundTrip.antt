-- ===== src/Cabi/Lower/RoundTrip.antt =====
-- Every value that fits in its own lanes is lifted back from what it was lowered to.
use polyengine.Base.{
  ℕ, zero, suc, ◌≤◌, ◌<◌, ◌^◌, ◌≡◌, ==_iff, refl, sym, subst, ap, ◌∙◌, none, some, List, [], ◌∷◌,
  ◌++◌, String, ok, ok_injective, >>=-eq-ok, leb, false, arith, length,
}
use polyengine.Cabi.Types.{PtrType, CoreType, PrimKind, s64, u64, f32, f64, string}
use polyengine.Cabi.Despecialized.{
  DespecializedType, prim, error_context, list, record_type, variant, flags, own, borrow, stream,
  future, Payload, type, Fields, no_fields, field_then, Cases, no_cases, case_then, case_count,
  discriminant_size,
}
use polyengine.Cabi.Layout.{
  Layout, compute_layout, field_layouts, case_layouts, flags_layout, elem_size_flags,
}
use polyengine.Cabi.Flatten.{
  repeat, join_lanes, flatten_prim, flatten_type, flatten_record, flatten_cases,
}
use polyengine.Cabi.Flatten.Join.{LanesFit_trans, join_lanes-LanesFit_right}
use polyengine.Cabi.Flatten.Variant.{flatten_cases-LanesFit, flatten_variant}
use polyengine.Cabi.Float.{Floats}
use polyengine.Cabi.Value.{array, case_of, member, member_of, element_count, Host}
use polyengine.Cabi.Access.{
  label_count, first_index, match_case, label_of, payload_of, members_of, HostValue, HostMembers,
  HostCx,
}
use polyengine.Cabi.Bulk.{HostElements}
use polyengine.Cabi.Lanes.{Lanes}
use polyengine.Cabi.Lanes.RoundTrip.{AreLanes}
use polyengine.Cabi.Lists.{elements_of}
use polyengine.Cabi.Lift.{
  Core, core_next, lift_flat, lift_flat_record, lift_flat_elements, shift_i32, to_core,
  next_natural, natural_of,
}
use polyengine.Cabi.Lower.{to_cores, lower_flat, lower_flat_record, lower_flat_elements}
use polyengine.Cabi.Lower.Reads.{core_next-Reads}
use polyengine.Cabi.Lower.Scalars.{Carried, prim_lane, prim-Carried, flags-Carried}
use polyengine.Cabi.Lower.Parts.{
  Carried-append, Carried-map, Carried-nothing, FlatCarried, elements-Carried, PayloadCarried,
  no_payload-Carried, first_payload-Carried,
}
use polyengine.Cabi.Store.Typing.{PrimTyped, Typed, FieldsTyped, PayloadTyped}
use polyengine.Cabi.Store.ListValues.{list_layout}
use polyengine.Cabi.Store.Record.{field_layouts-cons}
use polyengine.Cabi.Store.Variant.{case_layouts-cons, case_layouts-null, first_index-label}

discriminant_size-lt : (n : ℕ) {k : ℕ} → discriminant_size n ≡ ok k → n < 2 ^ 32
unfolding discriminant_size
discriminant_size-lt n e = ground arith

labels_bounds : (n : ℕ) {k : ℕ} → elem_size_flags n ≡ ok k → (0 < n) × (n ≤ 32)
unfolding elem_size_flags
labels_bounds n e = ground arith

-- The labels of flags that have a layout.
flags_count :
    (ls : List String) {l : Layout} → flags_layout ls ≡ ok l → (0 < length ls) × (length ls ≤ 32)
unfolding flags_layout
flags_count ls e =
    let (a, ea, _) = >>=-eq-ok (elem_size_flags (length ls)) _ e in labels_bounds (length ls) ea

module _ {fl : Floats} (host : Host fl) where
  prim_flat :
      (p : PrimKind) (addr : PtrType) (v : HostValue host) {flat : List CoreType}
      → PrimTyped host p v
      → flatten_prim (some addr) p ≡ ok flat
      → prim_lane p ∷ [] ≡ flat
  unfolding flatten_prim PrimTyped
  prim_flat string addr v h e = elim h [ ]
  prim_flat s64 addr v h e = ok_injective e
  prim_flat u64 addr v h e = ok_injective e
  prim_flat f32 addr v h e = ok_injective e
  prim_flat f64 addr v h e = ok_injective e
  prim_flat _ addr v h e = ok_injective e

  abbrev pub FieldsCarried :
      Fields → HostCx host → HostMembers host → HostMembers host → List CoreType → Type 1
  FieldsCarried fs cx whole ms flat =
      Carried host (lower_flat_record host fs cx whole)
        (λ I next kept i. lift_flat_record host next fs kept i) ms cx flat

  -- The discriminant, then the payload and the lanes that it leaves.
  variant-Carried :
      (cs : Cases) (cx : HostCx host) (label : String) (w : HostValue host)
      (flat wants : List CoreType)
      → label_count label cs ≡ 1
      → case_count cs < 2 ^ 32
      → flatten_type (some cx.memory.addr_type) (variant cs) ≡ ok flat
      → flat ≡ CoreType.i32 ∷ wants
      → PayloadCarried host cs (first_index label cs) cx w wants
      → FlatCarried host (variant cs) cx (case_of label w) (CoreType.i32 ∷ wants)
  unfolding lower_flat lift_flat match_case label_of payload_of shift_i32 to_cores to_core
      next_natural natural_of
  variant-Carried cs cx label w flat wants one few e shape (ws, are, lo, li) =
      let (lt, back) = first_index-label label cs one in
      let once = (==_iff (label_count label cs) 1).1 one in
      let whole = e ∙ ap ok shape in
      (
        (first_index label cs, ws),
        (omega (arith, lt, few), are),
        rw (once, whole, lo) refl,
        λ I next kept i i' addr (j, read, reads).
            let (rest, k, payload, skipped) = li I next kept j i' addr reads in
            let inside : leb (case_count cs) (first_index label cs) ≡ false = ground (arith, lt) in
            let again = ap (λ a. flatten_type (some a) (variant cs)) addr ∙ whole in
            rw (again, read, inside, payload, skipped, back) refl,
      )

  -- The elements of a list of fixed length.
  list-Carried :
      (t : DespecializedType) (n : ℕ) (cx : HostCx host) (v : HostValue host)
      (vs : HostElements host) (one flat : List CoreType)
      → v ≡ array vs
      → element_count vs ≡ n
      → repeat n one ≡ flat
      → Carried host
          (lower_flat_elements host (λ cx v. lower_flat host t cx v) cx vs)
          (λ I next kept i.
            lift_flat_elements host (λ cx i. lift_flat host next t cx i) (element_count vs) kept i)
          vs
          cx
          (repeat (element_count vs) one)
      → FlatCarried host (list t (some n)) cx v flat
  unfolding lower_flat lift_flat elements_of
  list-Carried t n cx v vs one flat e count shape elements =
      let same = (==_iff n (element_count vs)).1 (sym count) in
      subst (FlatCarried host (list t (some n)) cx v) (ap (λ k. repeat k one) count ∙ shape) (
        Carried-map host cx (repeat (element_count vs) one) _ v (rw (e, same) refl) elements
          (λ I next kept i j r. rw (sym count, r, e) refl))

  -- The first field, then the others.
  field-Carried :
      (l : String) (t : DespecializedType) (fs : Fields) (cx : HostCx host)
      (whole ms rest : HostMembers host) (first second flat : List CoreType)
      → ms ≡ member l (member_of l whole) rest
      → first ++ second ≡ flat
      → FlatCarried host t cx (member_of l whole) first
      → FieldsCarried fs cx whole rest second
      → FieldsCarried (field_then l t fs) cx whole ms flat
  unfolding lower_flat_record lift_flat_record
  field-Carried l t fs cx whole ms rest first second flat e shape head tail =
      subst (FieldsCarried (field_then l t fs) cx whole ms) shape (
        Carried-append host cx first second (λ cx'. lower_flat_record host fs cx' whole) _ ms head
          tail (λ I next kept i j k r r'. rw (r, r', e) refl))

  mutual
    unfolding Typed FieldsTyped PayloadTyped compute_layout flatten_type flatten_record
        flatten_cases lower_flat lift_flat lower_flat_record lift_flat_record members_of elements_of

    pub lower_flat-Carried :
        (d : DespecializedType) (cx : HostCx host) (v : HostValue host) (l : Layout)
        (flat : List CoreType)
        → Typed host d v
        → compute_layout cx.memory.addr_type d ≡ ok l
        → flatten_type (some cx.memory.addr_type) d ≡ ok flat
        → FlatCarried host d cx v flat
    lower_flat-Carried (prim p) cx v l flat h el ef =
        subst (FlatCarried host (prim p) cx v) (prim_flat p cx.memory.addr_type v h ef) (
          Carried-map host cx (prim_lane p ∷ []) _ v refl (prim-Carried host p cx v h)
            (λ I next kept i j r. r))
    lower_flat-Carried (flags ls) cx v l flat (ms, e, canonical) el ef =
        let (some_labels, few) = flags_count ls el in
        subst (FlatCarried host (flags ls) cx v) (ok_injective ef) (
          Carried-map host cx (CoreType.i32 ∷ []) _ v refl
            (flags-Carried host ls cx v ms e canonical some_labels few) (λ I next kept i j r. r))
    lower_flat-Carried (record_type fs) cx v l flat (ms, e, typed) el ef =
        let (layouts, laid, _) = >>=-eq-ok (field_layouts cx.memory.addr_type fs) _ el in
        Carried-map host cx flat _ v (rw e refl)
          (lower_flat_record-Carried fs cx ms ms layouts flat typed laid ef)
          (λ I next kept i j r. rw (r, e) refl)
    lower_flat-Carried (list t none) cx v l flat h el ef = elim h [ ]
    lower_flat-Carried (list t (some n)) cx v l flat (vs, e, count, typed) el ef =
        let (f, laid, _, _) = list_layout cx.memory.addr_type t n el in
        let (one, flat_one, made) = >>=-eq-ok (flatten_type (some cx.memory.addr_type) t) _ ef in
        list-Carried t n cx v vs one flat e count (ok_injective made) (
          elements-Carried host t cx one (λ u hu. lower_flat-Carried t cx u f one hu laid flat_one)
            vs typed)
    lower_flat-Carried (variant cs) cx v l flat (label, w, e, one, typed) el ef =
        let (size, sized, more) = >>=-eq-ok (discriminant_size (case_count cs)) _ el in
        let (layouts, laid, _) = >>=-eq-ok (case_layouts cx.memory.addr_type cs) _ more in
        let (wants, joined, shape) = flatten_variant (some cx.memory.addr_type) cs ef in
        subst (FlatCarried host (variant cs) cx v) (sym shape) (
          rw e (
            variant-Carried cs cx label w flat wants one
              (discriminant_size-lt (case_count cs) sized) ef shape
              (lower_flat_payload-Carried cs (first_index label cs) cx w layouts [] wants typed laid
                joined)))
    lower_flat-Carried error_context cx v l flat h el ef = elim h [ ]
    lower_flat-Carried (own r) cx v l flat h el ef = elim h [ ]
    lower_flat-Carried (borrow r) cx v l flat h el ef = elim h [ ]
    lower_flat-Carried (stream t) cx v l flat h el ef = elim h [ ]
    lower_flat-Carried (future t) cx v l flat h el ef = elim h [ ]

    lower_flat_record-Carried :
        (fs : Fields) (cx : HostCx host) (whole ms : HostMembers host) (layouts : List Layout)
        (flat : List CoreType)
        → FieldsTyped host fs whole ms
        → field_layouts cx.memory.addr_type fs ≡ ok layouts
        → flatten_record (some cx.memory.addr_type) fs ≡ ok flat
        → FieldsCarried fs cx whole ms flat
    lower_flat_record-Carried no_fields cx whole ms layouts flat h el ef =
        subst (FieldsCarried no_fields cx whole ms) (ok_injective ef)
          (Carried-nothing host cx _ ms (λ I next kept i. ap (λ r. ok ((r, i), kept)) (sym h)))
    lower_flat_record-Carried (field_then l t fs) cx whole ms layouts flat (rest, e, typed, others)
          el ef =
        let (f, ls, _, laid, laid') = field_layouts-cons cx.memory.addr_type l t fs el in
        let (first, ft, more) = >>=-eq-ok (flatten_type (some cx.memory.addr_type) t) _ ef in
        let (second, fr, made) = >>=-eq-ok (flatten_record (some cx.memory.addr_type) fs) _ more in
        field-Carried l t fs cx whole ms rest first second flat e (ok_injective made)
          (lower_flat-Carried t cx (member_of l whole) f first typed laid ft)
          (lower_flat_record-Carried fs cx whole rest ls second others laid' fr)

    lower_flat_payload-Carried :
        (cs : Cases) (n : ℕ) (cx : HostCx host) (w : HostValue host) (layouts : List Layout)
        (start wants : List CoreType)
        → PayloadTyped host cs n w
        → case_layouts cx.memory.addr_type cs ≡ ok layouts
        → flatten_cases (some cx.memory.addr_type) cs start ≡ ok wants
        → PayloadCarried host cs n cx w wants
    lower_flat_payload-Carried no_cases n cx w layouts start wants h el ef = elim h [ ]
    lower_flat_payload-Carried (case_then label Payload.null cs) zero cx w layouts start wants h el
          ef =
        no_payload-Carried host label cs cx w wants h
    lower_flat_payload-Carried (case_then label Payload.null cs) (suc n) cx w layouts start wants h
          el ef =
        lower_flat_payload-Carried cs n cx w layouts start wants h
          (case_layouts-null cx.memory.addr_type label cs ∙ el) ef
    lower_flat_payload-Carried (case_then label (type t) cs) zero cx w layouts start wants h el ef =
        let (f, ls, _, laid, laid') = case_layouts-cons cx.memory.addr_type label t cs el in
        let (haves, flat, rest) = >>=-eq-ok (flatten_type (some cx.memory.addr_type) t) _ ef in
        let fit =
          LanesFit_trans haves (join_lanes start haves) wants
            (join_lanes-LanesFit_right start haves)
            (flatten_cases-LanesFit (some cx.memory.addr_type) cs (join_lanes start haves) rest) in
        first_payload-Carried host label t cs cx w haves wants flat fit
          (lower_flat-Carried t cx w f haves h laid flat)
    lower_flat_payload-Carried (case_then label (type t) cs) (suc n) cx w layouts start wants h el
          ef =
        let (f, ls, _, laid, laid') = case_layouts-cons cx.memory.addr_type label t cs el in
        let (haves, flat, rest) = >>=-eq-ok (flatten_type (some cx.memory.addr_type) t) _ ef in
        lower_flat_payload-Carried cs n cx w ls (join_lanes start haves) wants h laid' rest

  -- A value of a type without strings, lists of any length or handles, whose type has a layout and
  -- flat types, is lowered without an error to lane values of its flat types, and leaves the
  -- memory and the host's state alone. From these lane values, and on any memory of the same
  -- pointer type, the value is lifted, and the iterator over them is then at their end.
  pub lift_flat-lower_flat :
      (d : DespecializedType) (cx kept : HostCx host) (v : HostValue host) {l : Layout}
      {flat : List CoreType}
      → Typed host d v
      → compute_layout cx.memory.addr_type d ≡ ok l
      → flatten_type (some cx.memory.addr_type) d ≡ ok flat
      → kept.memory.addr_type ≡ cx.memory.addr_type
      → (vs : Lanes fl flat) × AreLanes fl flat vs
        × (lower_flat host d cx v ≡ ok (to_cores fl flat vs, cx))
        × (lift_flat host (core_next fl) d kept (to_cores fl flat vs) ≡ ok ((v, []), kept))
  lift_flat-lower_flat d cx kept v {l} {flat} h el ef addr =
      let (vs, are, lo, li) = lower_flat-Carried d cx v l flat h el ef in
      (
        vs,
        are,
        lo,
        li (List (Core fl)) (core_next fl) kept (to_cores fl flat vs) [] addr
            (core_next-Reads fl flat vs are),
      )
