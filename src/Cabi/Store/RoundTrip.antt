-- ===== src/Cabi/Store/RoundTrip.antt =====
-- Every value that fits in the bytes of its type is loaded back from where it was stored.
use polyengine.Base.{
  ℕ, zero, suc, ◌+◌, ◌-◌, ◌%◌, ◌≤◌, ◌≡◌, subst, ◌∙◌, List, none, some, ok, Returns, arith,
}
use polyengine.Cabi.Despecialized.{
  DespecializedType, prim, error_context, list, record_type, variant, flags, own, borrow, stream,
  future, Payload, type, Fields, no_fields, field_then, Cases, no_cases, case_then,
}
use polyengine.Cabi.Layout.{Layout, compute_layout, field_layouts, case_layouts}
use polyengine.Cabi.Layout.Placement.{Placed, PayloadsFit}
use polyengine.Cabi.Float.{Floats}
use polyengine.Cabi.Value.{Host, member_of}
use polyengine.Cabi.Access.{first_index, HostValue, HostMembers, HostCx}
use polyengine.Cabi.Store.{store, load}
use polyengine.Cabi.Store.Typing.{Typed, FieldsTyped, PayloadTyped}
use polyengine.Cabi.Store.Scalars.{Holds}
use polyengine.Cabi.Store.Places.{Stores, Fits, store-prim, store-flags}
use polyengine.Cabi.Store.ListValues.{store-list}
use polyengine.Cabi.Store.Record.{
  FieldsStored, store_no_fields, store_next_field, store_fields_whole,
}
use polyengine.Cabi.Store.Variant.{
  PayloadStored, store_no_payload, store_first_payload, later_payload, store_variant,
  case_layouts-cons, case_layouts-null,
}

module _ {fl : Floats} (host : Host fl) where
  mutual
    unfolding Typed FieldsTyped PayloadTyped

    store-Stores :
        (d : DespecializedType) (cx : HostCx host) (v : HostValue host) (ptr : ℕ) (l : Layout)
        → Typed host d v
        → Fits host d cx ptr l
        → Stores host d cx v ptr l.size
    store-Stores (prim p) cx v ptr l h fits = store-prim host p cx v ptr l h fits
    store-Stores (flags ls) cx v ptr l h fits = store-flags host ls cx v ptr l h fits
    store-Stores (record_type fs) cx v ptr l h fits =
        store_fields_whole host fs cx v ptr l h fits (λ layouts os e placed inside ms typed.
          store-FieldsStored fs cx ms ms ptr 0 l.size layouts os typed e placed inside)
    store-Stores (variant cs) cx v ptr l (label, w, e, one, typed) fits = rw e (
        store_variant host cs cx label w ptr l fits one (λ cx' layouts ec fit le inside.
          store-PayloadStored cs (first_index label cs) cx' w ptr l.payload_offset l.size layouts
            typed ec fit le inside))
    store-Stores error_context cx v ptr l h fits = elim h [ ]
    store-Stores (list t none) cx v ptr l h fits = elim h [ ]
    store-Stores (list t (some n)) cx v ptr l h fits =
        store-list host t n cx v ptr l (λ f cx w p h fits. store-Stores t cx w p f h fits) h fits
    store-Stores (own r) cx v ptr l h fits = elim h [ ]
    store-Stores (borrow r) cx v ptr l h fits = elim h [ ]
    store-Stores (stream t) cx v ptr l h fits = elim h [ ]
    store-Stores (future t) cx v ptr l h fits = elim h [ ]

    store-FieldsStored :
        (fs : Fields) (cx : HostCx host) (whole ms : HostMembers host) (ptr from end : ℕ)
        (layouts : List Layout) (os : List ℕ)
        → FieldsTyped host fs whole ms
        → field_layouts cx.memory.addr_type fs ≡ ok layouts
        → Placed ptr end from layouts os
        → ptr + end ≤ cx.memory.length
        → FieldsStored host fs os cx whole ms ptr from end
    store-FieldsStored no_fields cx whole ms ptr from end layouts os h e placed inside =
        store_no_fields host os cx whole ms ptr from end h
    store-FieldsStored (field_then l t fs) cx whole ms ptr from end layouts os
          (rest, em, typed, others) e placed inside =
        store_next_field host l t fs cx whole ms rest ptr from end layouts os em e placed inside
          (λ f fits. store-Stores t cx (member_of l whole) (ptr + f.0) f.1 typed fits)
          (λ cx' from' layouts' os' e' placed' inside'.
            store-FieldsStored fs cx' whole rest ptr from' end layouts' os' others e' placed'
              inside')

    store-PayloadStored :
        (cs : Cases) (i : ℕ) (cx : HostCx host) (w : HostValue host) (ptr offset end : ℕ)
        (layouts : List Layout)
        → PayloadTyped host cs i w
        → case_layouts cx.memory.addr_type cs ≡ ok layouts
        → PayloadsFit ptr offset end layouts
        → offset ≤ end
        → ptr + end ≤ cx.memory.length
        → PayloadStored host cs i cx w (ptr + offset) (end - offset)
    store-PayloadStored no_cases i cx w ptr offset end layouts h e fit le inside = elim h [ ]
    store-PayloadStored (case_then label Payload.null cs) zero cx w ptr offset end layouts h e fit
          le inside =
        store_no_payload host label cs cx w (ptr + offset) (end - offset) h
    store-PayloadStored (case_then label Payload.null cs) (suc i) cx w ptr offset end layouts h e
          fit le inside =
        later_payload host label Payload.null cs i cx w _ _ (
          store-PayloadStored cs i cx w ptr offset end layouts h
            (case_layouts-null cx.memory.addr_type label cs ∙ e) fit le inside)
    store-PayloadStored (case_then label (type t) cs) zero cx w ptr offset end layouts h e fit le
          inside =
        let (f, ls, el, ef, er) = case_layouts-cons cx.memory.addr_type label t cs e in
        let (aligned, small, _) = subst (PayloadsFit ptr offset end) el fit in
        store_first_payload host label t cs cx w (ptr + offset) (end - offset) f.size (omega arith)
          (store-Stores t cx w (ptr + offset) f h (ef, aligned, omega arith))
    store-PayloadStored (case_then label (type t) cs) (suc i) cx w ptr offset end layouts h e fit le
          inside =
        let (f, ls, el, ef, er) = case_layouts-cons cx.memory.addr_type label t cs e in
        let (_, _, rest) = subst (PayloadsFit ptr offset end) el fit in
        later_payload host label (type t) cs i cx w _ _
          (store-PayloadStored cs i cx w ptr offset end ls h er rest le inside)

  -- A value of a type without strings, lists or handles, stored at an aligned address with room for the
  -- layout of the type, is stored without an error. The host's state and the bytes outside that
  -- place are as before, and the value is loaded from any memory that keeps the bytes in the place.
  pub load-store :
      (d : DespecializedType) (cx : HostCx host) (v : HostValue host) (ptr : ℕ) {l : Layout}
      → Typed host d v
      → compute_layout cx.memory.addr_type d ≡ ok l
      → ptr % l.align ≡ 0
      → ptr + l.size ≤ cx.memory.length
      → Returns (Holds host (λ kept. load host d kept ptr) v cx ptr l.size) (store host d cx v ptr)
  load-store d cx v ptr {l} h e aligned inside = store-Stores d cx v ptr l h (e, aligned, inside)
