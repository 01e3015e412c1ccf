-- ===== src/Cabi/Store/Record.antt =====
-- The fields of a record, stored one after the other and loaded.
use polyengine.Base.{
  ℕ, ◌+◌, ◌-◌, ◌≤◌, ◌≡◌, refl, sym, subst, ap, ◌∙◌, some, List, [], ◌∷◌, String, ok, ok_injective,
  ◌>>=◌, >>=-eq-ok, Returns, arith,
}
use polyengine.Cabi.Types.{PtrType}
use polyengine.Cabi.Despecialized.{DespecializedType, record_type, Fields, no_fields, field_then}
use polyengine.Cabi.Layout.{Layout, compute_layout, field_layouts}
use polyengine.Cabi.Layout.Placement.{Placed, compute_layout-Placed}
use polyengine.Cabi.Memory.RoundTrip.{SameOutside}
use polyengine.Cabi.Float.{Floats}
use polyengine.Cabi.Value.{object, no_members, member, Host, member_of}
use polyengine.Cabi.Access.{HostValue, HostMembers, HostCx, members_of}
use polyengine.Cabi.Store.{store, store_record, load, load_record}
use polyengine.Cabi.Store.Typing.{Typed, FieldsTyped}
use polyengine.Cabi.Store.Scalars.{Holds}
use polyengine.Cabi.Store.Places.{Stores, Fits, store_checked}
use polyengine.Cabi.Store.Ranges.{SameOutside-refl, Holds-both, Holds-through}

Placed-le :
    (base end from : ℕ) (fs : List Layout) (os : List ℕ) → Placed base end from fs os → from ≤ end
Placed-le base end from [] [] h = h
Placed-le base end from [] (o ∷ os) h = elim h [ ]
Placed-le base end from (f ∷ fs) [] h = elim h [ ]
Placed-le base end from (f ∷ fs) (o ∷ os) (le, aligned, rest) =
    omega (arith, Placed-le base end (o + f.size) fs os rest)

pub field_layouts-cons :
    (addr : PtrType) (l : String) (t : DespecializedType) (fs : Fields) {layouts : List Layout}
    → field_layouts addr (field_then l t fs) ≡ ok layouts
    → (f : Layout) × (rest : List Layout) × (layouts ≡ f ∷ rest)
      × (compute_layout addr t ≡ ok f)
      × (field_layouts addr fs ≡ ok rest)
unfolding field_layouts
field_layouts-cons addr l t fs e =
    let (f, ef, more) = >>=-eq-ok (compute_layout addr t) _ e in
    let (rest, er, made) = >>=-eq-ok (field_layouts addr fs) _ more in
    (f, rest, sym (ok_injective made), ef, er)

module _ {fl : Floats} (host : Host fl) where
  abbrev pub FieldsStored :
      Fields → List ℕ → HostCx host → HostMembers host → HostMembers host → ℕ → ℕ → ℕ → Type 0
  FieldsStored fs os cx whole ms ptr from end =
      Returns
        (Holds host (λ kept. load_record host fs (some os) kept ptr) ms cx (ptr + from)
          (end - from))
        (store_record host fs (some os) cx whole ptr)

  -- The first field, then the others.
  store_field :
      (l : String) (t : DespecializedType) (fs : Fields) (o : ℕ) (os : List ℕ) (cx : HostCx host)
      (whole ms : HostMembers host) (ptr from end size : ℕ)
      → Stores host t cx (member_of l whole) (ptr + o) size
      → ((cx' : HostCx host)
          → SameOutside cx.memory cx'.memory (ptr + o) size
          → FieldsStored fs os cx' whole ms ptr (o + size) end)
      → from ≤ o
      → o + size ≤ end
      → FieldsStored
          (field_then l t fs)
          (o ∷ os)
          cx
          whole
          (member l (member_of l whole) ms)
          ptr
          from
          end
  unfolding store_record load_record Holds
  store_field l t fs o os cx whole ms ptr from end size (cx', e, held) others le fits =
      let (cx'', e', held') = others cx' held.1 in
      (
        cx'',
        ap (λ r. r >>= λ c. store_record host fs (some os) c whole ptr) e ∙ e',
        Holds-both host cx cx' cx'' (ptr + from) (end - from) (ptr + o) size (ptr + (o + size))
            (end - (o + size))
            (λ kept. load_record host (field_then l t fs) (some (o ∷ os)) kept ptr)
            (member l (member_of l whole) ms) held held' (omega arith)
            (λ kept r r'. rw (r, r') refl),
      )

  pub store_no_fields :
      (os : List ℕ) (cx : HostCx host) (whole ms : HostMembers host) (ptr from end : ℕ)
      → ms ≡ no_members
      → FieldsStored no_fields os cx whole ms ptr from end
  unfolding store_record load_record Holds
  store_no_fields os cx whole ms ptr from end h = (
    cx,
    refl,
    (refl, SameOutside-refl host cx.memory _ _, λ kept i. ap (λ m. ok (m, kept)) (sym h)),
  )

  -- A field at the place that the layout of its record gives it.
  pub store_next_field :
      (l : String) (t : DespecializedType) (fs : Fields) (cx : HostCx host)
      (whole ms rest : HostMembers host) (ptr from end : ℕ) (layouts : List Layout) (os : List ℕ)
      → ms ≡ member l (member_of l whole) rest
      → field_layouts cx.memory.addr_type (field_then l t fs) ≡ ok layouts
      → Placed ptr end from layouts os
      → ptr + end ≤ cx.memory.length
      → ((f : ℕ × Layout)
          → Fits host t cx (ptr + f.0) f.1
          → Stores host t cx (member_of l whole) (ptr + f.0) f.1.size)
      → ((cx' : HostCx host) (from' : ℕ) (layouts' : List Layout) (os' : List ℕ)
          → field_layouts cx'.memory.addr_type fs ≡ ok layouts'
          → Placed ptr end from' layouts' os'
          → ptr + end ≤ cx'.memory.length
          → FieldsStored fs os' cx' whole rest ptr from' end)
      → FieldsStored (field_then l t fs) os cx whole ms ptr from end
  unfolding SameOutside
  store_next_field l t fs cx whole ms rest ptr from end layouts os em e placed inside first others =
      let (f, ls, el, ef, er) = field_layouts-cons cx.memory.addr_type l t fs e in
      subst (λ ms. FieldsStored (field_then l t fs) os cx whole ms ptr from end) (sym em)
        (place_field f ls os ef er (subst (λ layouts. Placed ptr end from layouts os) el placed))
    where
      place_field :
          (f : Layout) (ls : List Layout) (os : List ℕ)
          → compute_layout cx.memory.addr_type t ≡ ok f
          → field_layouts cx.memory.addr_type fs ≡ ok ls
          → Placed ptr end from (f ∷ ls) os
          → FieldsStored
              (field_then l t fs)
              os
              cx
              whole
              (member l (member_of l whole) rest)
              ptr
              from
              end
      place_field f ls [] ef er h = elim h [ ]
      place_field f ls (o ∷ os) ef er (le, aligned, tail) =
          let fits = Placed-le ptr end (o + f.size) ls os tail in
          store_field l t fs o os cx whole rest ptr from end f.size
            (first (o, f) (ef, aligned, omega arith))
            (λ cx' same.
              others cx' (o + f.size) ls os (ap (λ a. field_layouts a fs) same.1 ∙ er) tail
                (omega (arith, same.0)))
            le fits

  pub store_fields_whole :
      (fs : Fields) (cx : HostCx host) (v : HostValue host) (ptr : ℕ) (l : Layout)
      → Typed host (record_type fs) v
      → Fits host (record_type fs) cx ptr l
      → ((layouts : List Layout) (os : List ℕ)
          → field_layouts cx.memory.addr_type fs ≡ ok layouts
          → Placed ptr l.size 0 layouts os
          → ptr + l.size ≤ cx.memory.length
          → (ms : HostMembers host) → FieldsTyped host fs ms ms
          → FieldsStored fs os cx ms ms ptr 0 l.size)
      → Stores host (record_type fs) cx v ptr l.size
  unfolding Typed compute_layout store load Holds members_of
  store_fields_whole fs cx v ptr l (ms, e, typed) fits fields =
      let (layouts, ef, made) = >>=-eq-ok (field_layouts cx.memory.addr_type fs) _ fits.0 in
      let (os, eo, placed) = compute_layout-Placed cx.memory.addr_type fs ptr ef fits.0 fits.1 in
      let (cx', stored, held) = fields layouts os ef placed fits.2 ms typed in
      store_checked host (record_type fs) cx v ptr l
        (λ m. members_of host v >>= λ ms. store_record host fs m.field_offsets cx ms ptr)
        (λ m kept. load_record host fs m.field_offsets kept ptr >>= λ r. ok (object r.0, r.1)) refl
        (λ kept. refl) fits
        (rw (e, eo)
          (
            cx',
            stored,
            Holds-through host cx cx' (ptr + 0) (l.size - 0) ptr l.size _ (object ms) held
                (omega arith) (λ kept r. rw r refl),
          ))
