-- ===== src/Cabi/Store/Variant.antt =====
-- The discriminant of a variant and the payload of its case, stored and loaded.
use text.Mathlib.Text.{◌==◌ as str_eq}
use text.Mathlib.TextEquality.{eq_iff}
use polyengine.Base.{
  ℕ, suc, ◌+◌, ◌-◌, ◌^◌, ◌≤◌, ◌<◌, ◌≡◌, refl, sym, ap, ◌∙◌, inl, inr, pos, false, List, ◌∷◌, String,
  Result, ok, ok_injective, ◌>>=◌, ◌>>◌, >>=-eq-ok, trap_if, err, Returns, leb, arith, Bool-cases,
}
use polyengine.Cabi.Types.{PtrType}
use polyengine.Cabi.Despecialized.{
  DespecializedType, variant, Payload, type, Cases, no_cases, case_then, case_count,
}
use polyengine.Cabi.Layout.{Layout, compute_layout, case_layouts}
use polyengine.Cabi.Layout.Placement.{
  PayloadsFit, compute_layout-PayloadsFit, compute_layout-variant_bounds,
}
use polyengine.Cabi.Memory.{load_int_u}
use polyengine.Cabi.Memory.RoundTrip.{SameOutside}
use polyengine.Cabi.Float.{Floats}
use polyengine.Cabi.Value.{Value, case_of, Host}
use polyengine.Cabi.Access.{
  label_count, first_index, case_label, HostValue, HostCx, label_of, payload_of, match_case,
  store_word,
}
use polyengine.Cabi.Store.{store, store_payload, load, load_payload}
use polyengine.Cabi.Store.Scalars.{Holds, store_natural}
use polyengine.Cabi.Store.Places.{Stores, Fits, store_checked}
use polyengine.Cabi.Store.Ranges.{SameOutside-refl, Holds-both, Holds-through}

pub case_layouts-cons :
    (addr : PtrType) (l : String) (t : DespecializedType) (cs : Cases) {layouts : List Layout}
    → case_layouts addr (case_then l (type t) cs) ≡ ok layouts
    → (f : Layout) × (rest : List Layout) × (layouts ≡ f ∷ rest)
      × (compute_layout addr t ≡ ok f)
      × (case_layouts addr cs ≡ ok rest)
unfolding case_layouts
case_layouts-cons addr l t cs e =
    let (f, ef, more) = >>=-eq-ok (compute_layout addr t) _ e in
    let (rest, er, made) = >>=-eq-ok (case_layouts addr cs) _ more in
    (f, rest, sym (ok_injective made), ef, er)

pub case_layouts-null :
    (addr : PtrType) (l : String) (cs : Cases)
    → case_layouts addr cs ≡ case_layouts addr (case_then l Payload.null cs)
unfolding case_layouts
case_layouts-null addr l cs = refl

-- The index of a label that one case has leads back to the label.
pub first_index-label :
    (l : String) (cs : Cases)
    → label_count l cs ≡ 1
    → (first_index l cs < case_count cs) × (case_label cs (first_index l cs) ≡ l)
unfolding label_count first_index case_label case_count
first_index-label l no_cases h = absurd (omega arith)
first_index-label l (case_then m p cs) h = elim (Bool-cases (str_eq m l)) [
  | inl e ↦ rw e (omega arith, (eq_iff m l).0 e)
  | inr e ↦ let (lt, back) = first_index-label l cs (rw e at h) in rw e (omega arith, back)
]

module _ {fl : Floats} (host : Host fl) where
  abbrev pub PayloadStored : Cases → ℕ → HostCx host → HostValue host → ℕ → ℕ → Type 0
  PayloadStored cs i cx w ptr n =
      Returns (Holds host (λ kept. load_payload host cs i kept ptr) w cx ptr n)
        (store_payload host cs i cx w ptr)

  pub store_no_payload :
      (label : String) (cs : Cases) (cx : HostCx host) (w : HostValue host) (ptr n : ℕ)
      → w ≡ Value.null
      → PayloadStored (case_then label Payload.null cs) 0 cx w ptr n
  unfolding store_payload load_payload Holds
  store_no_payload label cs cx w ptr n h = (
    cx,
    refl,
    (refl, SameOutside-refl host cx.memory ptr n, λ kept i. ap (λ x. ok (x, kept)) (sym h)),
  )

  pub store_first_payload :
      (label : String) (t : DespecializedType) (cs : Cases) (cx : HostCx host) (w : HostValue host)
      (ptr n size : ℕ)
      → size ≤ n
      → Stores host t cx w ptr size
      → PayloadStored (case_then label (type t) cs) 0 cx w ptr n
  unfolding store_payload load_payload
  store_first_payload label t cs cx w ptr n size le (cx', e, held) =
      (cx', e, Holds-through host cx cx' ptr size ptr n _ w held (omega arith) (λ kept r. r))

  pub later_payload :
      (label : String) (p : Payload) (cs : Cases) (i : ℕ) (cx : HostCx host) (w : HostValue host)
      (ptr n : ℕ)
      → PayloadStored cs i cx w ptr n
      → PayloadStored (case_then label p cs) (suc i) cx w ptr n
  unfolding store_payload load_payload
  later_payload label Payload.null cs i cx w ptr n h = h
  later_payload label (type t) cs i cx w ptr n h = h

  store_discriminant :
      (cx : HostCx host) (i ptr n : ℕ)
      → 0 < n
      → ptr + n ≤ cx.memory.length
      → i < 256 ^ n
      → Returns
          (Holds host (λ kept. load_int_u kept.memory ptr n >>= λ w. ok (w, kept)) i cx ptr n)
          (store_word host cx (pos i) ptr n false)
  store_discriminant cx i ptr n h bound small =
      store_natural host _ i cx i ptr n h bound small (λ kept e. rw e refl)

  read_word :
      (cx : HostCx host) (r : Result ℕ) {i : ℕ}
      → ◌>>=◌ {B = ℕ × HostCx host} r (λ w. ok (w, cx)) ≡ ok (i, cx)
      → r ≡ ok i
  read_word cx (ok w) e = cc
  read_word cx (err f) e = cc

  abbrev load_variant : Cases → ℕ → Layout → HostCx host → Result (HostValue host × HostCx host)
  load_variant cs ptr l kept = load_int_u kept.memory ptr l.disc_size >>= λ i.
      trap_if (leb (case_count cs) i) "discriminant out of range"
      >> (load_payload host cs i kept (ptr + l.payload_offset) >>= λ r.
          ok (case_of (case_label cs i) r.0, r.1))

  abbrev store_case :
      Cases → HostCx host → String → HostValue host → ℕ → Layout → Result (HostCx host)
  store_case cs cx label w ptr l = match_case label cs >>= λ i.
      store_word host cx (pos i) ptr l.disc_size false >>= λ c.
      store_payload host cs i c w (ptr + l.payload_offset)

  variant_stored :
      (cs : Cases) (cx : HostCx host) (label : String) (w : HostValue host) (ptr : ℕ) (l : Layout)
      {cx' cx'' : HostCx host}
      → label_count label cs ≡ 1
      → store_word host cx (pos (first_index label cs)) ptr l.disc_size false ≡ ok cx'
      → store_payload host cs (first_index label cs) cx' w (ptr + l.payload_offset) ≡ ok cx''
      → store_case cs cx label w ptr l ≡ ok cx''
  unfolding match_case
  variant_stored cs cx label w ptr l one e e' = rw (one, e) e'

  variant_loaded :
      (cs : Cases) (kept : HostCx host) (i ptr : ℕ) (l : Layout) {w : HostValue host}
      → i < case_count cs
      → load_int_u kept.memory ptr l.disc_size ≡ ok i
      → load_payload host cs i kept (ptr + l.payload_offset) ≡ ok (w, kept)
      → load_variant cs ptr l kept ≡ ok (case_of (case_label cs i) w, kept)
  variant_loaded cs kept i ptr l lt r r' =
      let inside : leb (case_count cs) i ≡ false = ground arith in rw (r, inside, r') refl

  -- The discriminant, then the payload of the case.
  pub store_variant :
      (cs : Cases) (cx : HostCx host) (label : String) (w : HostValue host) (ptr : ℕ) (l : Layout)
      → Fits host (variant cs) cx ptr l
      → label_count label cs ≡ 1
      → ((cx' : HostCx host) (layouts : List Layout)
          → case_layouts cx'.memory.addr_type cs ≡ ok layouts
          → PayloadsFit ptr l.payload_offset l.size layouts
          → l.payload_offset ≤ l.size
          → ptr + l.size ≤ cx'.memory.length
          → PayloadStored cs
              (first_index label cs)
              cx'
              w
              (ptr + l.payload_offset)
              (l.size - l.payload_offset))
      → Stores host (variant cs) cx (case_of label w) ptr l.size
  unfolding compute_layout store load label_of payload_of match_case SameOutside Holds
  store_variant cs cx label w ptr l fits one payload =
      let (positive, le, (layouts, ec)) =
        compute_layout-variant_bounds cx.memory.addr_type cs fits.0 in
      let (_, wide, behind, fit) =
        compute_layout-PayloadsFit cx.memory.addr_type cs ptr ec fits.0 fits.1 in
      let (lt, back) = first_index-label label cs one in
      let i = first_index label cs in
      let (cx', e, held) =
        store_discriminant cx i ptr l.disc_size positive (omega (arith, fits.2)) (omega arith) in
      let (cx'', e', held') =
        payload cx' layouts (ap (λ a. case_layouts a cs) held.1.1 ∙ ec) fit le
          (omega (arith, held.1.0, fits.2)) in
      store_checked host (variant cs) cx (case_of label w) ptr l
        (λ m. store_case cs cx label w ptr m) (λ m kept. load_variant cs ptr m kept) refl
        (λ kept. refl) fits
        (
          cx'',
          variant_stored cs cx label w ptr l one e e',
          Holds-both host cx cx' cx'' ptr l.size ptr l.disc_size (ptr + l.payload_offset)
              (l.size - l.payload_offset) (load_variant cs ptr l) (case_of label w) held held'
              (omega arith)
              (λ kept r r'.
                variant_loaded cs kept i ptr l lt
                  (read_word kept (load_int_u kept.memory ptr l.disc_size) r) r'
                ∙ ap (λ m. ok (case_of m w, kept)) back),
        )
