-- ===== src/Cabi/Spill/RoundTrip.antt =====
-- The values of a call that are lowered, flat or behind a pointer, are lifted again.
use polyengine.Base.{
  ℕ, suc, ◌+◌, ◌%◌, ◌^◌, ◌≤◌, ◌<◌, ◌≡◌, refl, sym, ap, ◌∙◌, true, false, inl, inr, pos, none, some,
  List, [], ◌∷◌, ok, subst, ok_injective, ◌⊎◌, >>=-eq-ok, ltb, arith, length, String,
}
use polyengine.Cabi.Types.{PtrType, CoreType}
use polyengine.Cabi.Types.Despecialize.{index_label}
use polyengine.Cabi.Despecialized.{DespecializedType}
use polyengine.Cabi.Layout.{Layout, ptr_size, align_to, compute_layout, field_layouts}
use polyengine.Cabi.Layout.Align.{align_to-aligned}
use polyengine.Cabi.Layout.Lawful.{compute_layout-Lawful}
use polyengine.Cabi.Flatten.{core_type, flatten_type, flatten_types, flat_count}
use polyengine.Cabi.Float.{Floats}
use polyengine.Cabi.Lanes.{Lanes, next}
use polyengine.Cabi.Memory.RoundTrip.{SameOutside, SameInside}
use polyengine.Cabi.Value.{object, member, no_elements, element, integer, member_of, Host}
use polyengine.Cabi.Access.{HostValue, HostMembers, HostCx, members_of}
use polyengine.Cabi.Bulk.{HostElements}
use polyengine.Cabi.Lists.{allocate}
use polyengine.Cabi.Lift.{Core, of_core, to_core, core_next, natural_of, next_natural}
use polyengine.Cabi.Lower.{to_cores}
use polyengine.Cabi.Lower.Reads.{core_next-Reads}
use polyengine.Cabi.Lower.Scalars.{Carried}
use polyengine.Cabi.Lower.Parts.{Carried-append, Carried-nothing}
use polyengine.Cabi.Lower.RoundTrip.{lower_flat-Carried}
use polyengine.Cabi.Spill.{
  spill_fields, spill_tuple_type, tuple_value, values_of, lift_each, lift_spilled, lift_flat_values,
  lower_each, spill_pointer, lower_spilled, lower_flat_values,
}
use polyengine.Cabi.Store.Typing.{Typed, FieldsTyped}
use polyengine.Cabi.Store.Scalars.{Holds}
use polyengine.Cabi.Store.Record.{field_layouts-cons}
use polyengine.Cabi.Store.RoundTrip.{load-store}
use polyengine.Cabi.Store.GuestLists.{not_ltb, not_unequal}

le_or_lt : (m n : ℕ) → (m ≤ n) ⊎ (n < m)
le_or_lt m n = omega arith

module _ (fl : Floats) where
  -- The iterator over one pointer.
  next_pointer :
      (addr : PtrType) (ptr : ℕ)
      → ptr < 256 ^ ptr_size addr
      → next_natural fl (core_next fl) (core_type addr) (integer (pos ptr) ∷ []) ≡ ok (ptr, [])
  unfolding next_natural core_next of_core to_core natural_of next
  next_pointer PtrType.i32 ptr small = ground arith
  next_pointer PtrType.i64 ptr small = ground arith

  length-to_cores : (ts : List CoreType) (vs : Lanes fl ts) → length (to_cores fl ts vs) ≡ length ts
  unfolding to_cores
  length-to_cores [] vs = refl
  length-to_cores (t ∷ ts) vs = ap suc (length-to_cores ts vs.1)

module _ {fl : Floats} (host : Host fl) where
  values_of-tuple_value :
      (i : ℕ) (vs : HostElements host) → values_of host (tuple_value host i vs) ≡ vs
  unfolding values_of tuple_value
  values_of-tuple_value i no_elements = refl
  values_of-tuple_value i (element v vs) = ap (element v) (values_of-tuple_value (i + 1) vs)

  member_injective :
      (l m : String) (v w : HostValue host) (vs ws : HostMembers host)
      → member l v vs ≡ member m w ws
      → (v ≡ w) × (vs ≡ ws)
  member_injective l m v w vs ws e = (cc, cc)

  abbrev pub EachCarried :
      List DespecializedType → HostCx host → HostElements host → List CoreType → Type 1
  EachCarried ts cx vs flat =
      Carried host (lower_each host ts cx vs) (λ I next kept i. lift_each host next ts kept i) vs cx
        flat

  lower_each-Carried :
      (i : ℕ) (ts : List DespecializedType) (cx : HostCx host) (whole : HostMembers host)
      (vs : HostElements host) (layouts : List Layout) (flat : List CoreType)
      → FieldsTyped host (spill_fields i ts) whole (tuple_value host i vs)
      → field_layouts cx.memory.addr_type (spill_fields i ts) ≡ ok layouts
      → flatten_types (some cx.memory.addr_type) ts ≡ ok flat
      → EachCarried ts cx vs flat
  unfolding FieldsTyped spill_fields tuple_value flatten_types lower_each lift_each
  lower_each-Carried i [] cx whole no_elements layouts flat h el ef =
      subst (EachCarried [] cx no_elements) (ok_injective ef)
        (Carried-nothing host cx _ no_elements (λ I next kept i. refl))
  lower_each-Carried i [] cx whole (element v vs) layouts flat h el ef = cc
  lower_each-Carried i (t ∷ ts) cx whole no_elements layouts flat (rest, e, _, _) el ef = cc
  lower_each-Carried i (t ∷ ts) cx whole (element v vs) layouts flat (rest, e, typed, others) el
        ef =
      let (same, tail) =
        member_injective (index_label i) (index_label i) v (member_of (index_label i) whole)
          (tuple_value host (i + 1) vs) rest e in
      let (f, ls, _, laid, laid') =
        field_layouts-cons cx.memory.addr_type (index_label i) t (spill_fields (i + 1) ts) el in
      let (first, ft, more) = >>=-eq-ok (flatten_type (some cx.memory.addr_type) t) _ ef in
      let (second, fr, made) = >>=-eq-ok (flatten_types (some cx.memory.addr_type) ts) _ more in
      subst (EachCarried (t ∷ ts) cx (element v vs)) (ok_injective made) (
        Carried-append host cx first second (λ cx'. lower_each host ts cx' vs) _ (element v vs)
          (lower_flat-Carried host t cx v f first (subst (Typed host t) (sym same) typed) laid ft)
          (lower_each-Carried (i + 1) ts cx whole vs ls second
            (subst (FieldsTyped host (spill_fields (i + 1) ts) whole) (sym tail) others) laid' fr)
          (λ I next kept i j k r r'. rw (r, r') refl))

  -- The guest's realloc gives room for the tuple.
  abbrev pub AllocatesTuple : HostCx host → Layout → ℕ → HostCx host → Type 0
  AllocatesTuple cx l ptr cx' =
      (allocate host cx l.align l.size ≡ ok (ptr, cx'))
      × (cx'.memory.addr_type ≡ cx.memory.addr_type)
      × (ptr % l.align ≡ 0)
      × (ptr + l.size ≤ cx'.memory.length)
      × (ptr < 256 ^ ptr_size cx.memory.addr_type)

  -- Flat values that are lifted again from memory that keeps the place of the tuple.
  abbrev pub ValuesBack :
      ℕ → List DespecializedType → HostCx host → HostElements host → ℕ → ℕ → Type 0
  ValuesBack max_flat ts cx vs ptr size =
      (flat : List (Core fl)) × (stored : HostCx host) × (lower_flat_values host max_flat ts cx vs
          none
        ≡ ok (flat, stored))
      × (length flat ≤ max_flat)
      × ((kept : HostCx host)
          → SameInside stored.memory kept.memory ptr size
          → lift_flat_values host (core_next fl) max_flat ts kept flat ≡ ok ((vs, []), kept))

  values_flat :
      (max_flat : ℕ) (ts : List DespecializedType) (cx : HostCx host) (vs : HostElements host)
      (ptr : ℕ) {l : Layout} {lanes : List CoreType}
      → Typed host (spill_tuple_type ts) (object (tuple_value host 0 vs))
      → compute_layout cx.memory.addr_type (spill_tuple_type ts) ≡ ok l
      → flatten_types (some cx.memory.addr_type) ts ≡ ok lanes
      → length lanes ≤ max_flat
      → ValuesBack max_flat ts cx vs ptr l.size
  unfolding Typed compute_layout lower_flat_values lift_flat_values flat_count SameInside
  values_flat max_flat ts cx vs ptr {l} {lanes} (ms, e, typed) el ef few =
      let (layouts, laid, _) =
        >>=-eq-ok (field_layouts cx.memory.addr_type (spill_fields 0 ts)) _ el in
      let same : tuple_value host 0 vs ≡ ms = cc in
      let (xs, are, lo, li) =
        lower_each-Carried 0 ts cx ms vs layouts lanes
          (subst (FieldsTyped host (spill_fields 0 ts) ms) (sym same) typed) laid ef in
      let within : ltb max_flat (length lanes) ≡ false = ground arith in
      (
        to_cores fl lanes xs,
        cx,
        rw (ef, within) lo,
        omega (arith, length-to_cores fl lanes xs, few),
        λ kept i.
            let again = ap (λ a. flatten_types (some a) ts) i.1 ∙ ef in
            rw (again, within)
              (li (List (Core fl)) (core_next fl) kept (to_cores fl lanes xs) [] i.1
                (core_next-Reads fl lanes xs are)),
      )

  values_spilled :
      (max_flat : ℕ) (ts : List DespecializedType) (cx cx' : HostCx host) (vs : HostElements host)
      (ptr : ℕ) {l : Layout} {lanes : List CoreType}
      → Typed host (spill_tuple_type ts) (object (tuple_value host 0 vs))
      → compute_layout cx.memory.addr_type (spill_tuple_type ts) ≡ ok l
      → flatten_types (some cx.memory.addr_type) ts ≡ ok lanes
      → 0 < max_flat
      → max_flat < length lanes
      → AllocatesTuple cx l ptr cx'
      → ValuesBack max_flat ts cx vs ptr l.size
  unfolding lower_flat_values lift_flat_values lower_spilled lift_spilled spill_pointer flat_count
      members_of SameInside SameOutside Holds
  values_spilled max_flat ts cx cx' vs ptr {l} {lanes} typed el ef positive many
        (ea, addr, aligned, inside, small) =
      let laid : compute_layout cx'.memory.addr_type (spill_tuple_type ts) ≡ ok l =
        ap (λ a. compute_layout a (spill_tuple_type ts)) addr ∙ el in
      let (stored, es, (s, o, back)) =
        load-store host (spill_tuple_type ts) cx' (object (tuple_value host 0 vs)) ptr typed laid
          aligned inside in
      let over : ltb max_flat (length lanes) ≡ true = ground arith in
      let fixed =
        align_to-aligned ptr l.align (compute_layout-Lawful cx.memory.addr_type _ el).aligned
          aligned in
      let whole = not_unequal ptr (align_to ptr l.align) (sym fixed) in
      let room = not_ltb cx'.memory.length (ptr + l.size) inside in
      (
        integer (pos ptr) ∷ [],
        stored,
        rw (ef, over, el, ea, whole, room, es) refl,
        omega arith,
        λ kept i.
            let kept_addr : kept.memory.addr_type ≡ cx.memory.addr_type = i.1 ∙ o.1 ∙ addr in
            let again = ap (λ a. flatten_types (some a) ts) kept_addr ∙ ef in
            let laid_again = ap (λ a. compute_layout a (spill_tuple_type ts)) kept_addr ∙ el in
            let read =
              ap (λ a. next_natural fl (core_next fl) (core_type a) (integer (pos ptr) ∷ []))
                kept_addr
              ∙ next_pointer fl cx.memory.addr_type ptr small in
            let aligned' = not_unequal (ptr % l.align) 0 aligned in
            let room' =
              not_ltb kept.memory.length (ptr + l.size) (omega (arith, i.0, o.0, inside)) in
            rw
              (
                again,
                over,
                read,
                laid_again,
                aligned',
                room',
                back kept i,
                values_of-tuple_value 0 vs,
              )
              refl,
      )

  -- The parameters or results of a call, of types without strings, lists of any length or handles,
  -- whose tuple has a layout, are lowered without an error to at most as many flat values as
  -- there may be (at least one), if the guest's realloc gives room for the tuple at an aligned
  -- address that is a pointer. From these flat values, and any memory that keeps the place of
  -- the tuple, the same values are lifted, whether they were spilled there or not.
  pub lift_flat_values-lower_flat_values :
      (max_flat : ℕ) (ts : List DespecializedType) (cx cx' : HostCx host) (vs : HostElements host)
      (ptr : ℕ) {l : Layout} {lanes : List CoreType}
      → Typed host (spill_tuple_type ts) (object (tuple_value host 0 vs))
      → compute_layout cx.memory.addr_type (spill_tuple_type ts) ≡ ok l
      → flatten_types (some cx.memory.addr_type) ts ≡ ok lanes
      → 0 < max_flat
      → AllocatesTuple cx l ptr cx'
      → ValuesBack max_flat ts cx vs ptr l.size
  lift_flat_values-lower_flat_values max_flat ts cx cx' vs ptr {l} {lanes} typed el ef positive
        room =
      elim (le_or_lt (length lanes) max_flat) [
        | inl few ↦ values_flat max_flat ts cx vs ptr typed el ef few
        | inr many ↦ values_spilled max_flat ts cx cx' vs ptr typed el ef positive many room
      ]
