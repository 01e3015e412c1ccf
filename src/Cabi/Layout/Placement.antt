-- ===== src/Cabi/Layout/Placement.antt =====
-- Where the fields of a record and the payloads of a variant lie.
use polyengine.Base.{
  ℕ, ◌+◌, ◌%◌, ◌^◌, ◌≤◌, ◌<◌, max, IsOk, ◌≡◌, refl, sym, subst, ◌⊎◌, inl, inr, none, some, List, [],
  ◌∷◌, arith, ok, >>=-eq-ok, Ensures-ok,
}
use polyengine.Cabi.Types.{PtrType}
use polyengine.Cabi.Despecialized.{
  DespecializedType, record_type, variant, Fields, Cases, case_count, discriminant_size,
}
use polyengine.Cabi.Layout.{
  align_to, Layout, alignment_record, fields_end, elem_size_record, offsets_from, record_layout,
  max_case_alignment, max_case_size, alignment_variant, elem_size_variant, variant_layout,
  compute_layout, field_layouts, case_layouts,
}
use polyengine.Cabi.Layout.Align.{
  IsAlign, max-IsAlign, align_to_bounds, mod-le-align, add-mod-align,
}
use polyengine.Cabi.Layout.Lawful.{
  AllLawful, mk_layout-eq-ok, alignment_record-IsAlign, max_case_alignment-IsAlign,
  alignment_variant-IsAlign, discriminant_size-IsAlign, field_layouts-Lawful, case_layouts-Lawful,
}

-- The fields lie one after the other from `from` up to `end` at most, each at a multiple of its
-- alignment when the whole starts at `base`.
abbrev pub Placed : ℕ → ℕ → ℕ → List Layout → List ℕ → Type 0
Placed base end from [] [] = from ≤ end
Placed base end from (f ∷ fs) (o ∷ os) =
    (from ≤ o) × ((base + o) % f.align ≡ 0) × Placed base end (o + f.size) fs os
Placed base end from _ _ = ⊥

abbrev AllBelow : ℕ → List Layout → Type 0
AllBelow a [] = Unit
AllBelow a (l ∷ ls) = (l.align ≤ a) × AllBelow a ls

le-alignment_record : (a : ℕ) (fs : List Layout) → a ≤ alignment_record a fs
unfolding alignment_record
le-alignment_record a [] = omega arith
le-alignment_record a (f ∷ fs) = omega (arith, le-alignment_record (max a f.align) fs)

alignment_record-AllBelow : (a : ℕ) (fs : List Layout) → AllBelow (alignment_record a fs) fs
unfolding alignment_record
alignment_record-AllBelow a [] = tt
alignment_record-AllBelow a (f ∷ fs) = (
  omega (arith, le-alignment_record (max a f.align) fs),
  alignment_record-AllBelow (max a f.align) fs,
)

offsets_from-Placed :
    (base end a p : ℕ) (fs : List Layout)
    → IsAlign a
    → base % a ≡ 0
    → AllLawful fs
    → AllBelow a fs
    → fields_end p fs ≤ end
    → Placed base end p fs (offsets_from p fs)
unfolding offsets_from fields_end
offsets_from-Placed base end a p [] h b v k le = le
offsets_from-Placed base end a p (f ∷ fs) h b v k le =
    let g = v.0.aligned in
    let bounds = align_to_bounds p f.align g in
    (
      bounds.0,
      add-mod-align base (align_to p f.align) f.align g (mod-le-align base f.align a g h k.0 b)
          bounds.1,
      offsets_from-Placed base end a (align_to p f.align + f.size) fs h b v.1 k.1 le,
    )

record_layout-eq-ok :
    (d : DespecializedType) (fs : List Layout) {l : Layout}
    → AllLawful fs
    → record_layout d fs ≡ ok l
    → (l.align ≡ alignment_record 1 fs)
      × (l.size ≡ align_to (fields_end 0 fs) (alignment_record 1 fs))
      × (l.field_offsets ≡ some (offsets_from 0 fs))
unfolding record_layout elem_size_record
record_layout-eq-ok d fs v e =
    let a = alignment_record-IsAlign 1 fs (inl refl) v in
    ground (
      arith,
      mk_layout-eq-ok d (alignment_record 1 fs) (align_to (fields_end 0 fs) (alignment_record 1 fs))
          (some (offsets_from 0 fs)) 0 0 a,
    )

-- In the layout of a record the fields follow one another in order without overlap, inside the
-- record, and each field is aligned at its address when the record is aligned at its own.
pub compute_layout-Placed :
    (ptr : PtrType) (fs : Fields) (base : ℕ) {l : Layout} {layouts : List Layout}
    → field_layouts ptr fs ≡ ok layouts
    → compute_layout ptr (record_type fs) ≡ ok l
    → base % l.align ≡ 0
    → (os : List ℕ) × (l.field_offsets ≡ some os) × Placed base l.size 0 layouts os
unfolding compute_layout
compute_layout-Placed ptr fs base {l} {layouts} h e b =
    let v = field_layouts-Lawful ptr fs h in
    let g = alignment_record-IsAlign 1 layouts (inl refl) v in
    let (ea, es, eo) = record_layout-eq-ok (record_type fs) layouts v (rw h at e) in
    (
      offsets_from 0 layouts,
      eo,
      subst (λ end. Placed base end 0 layouts (offsets_from 0 layouts)) (sym es)
          (offsets_from-Placed base _ (alignment_record 1 layouts) 0 layouts g
            (subst (λ n. base % n ≡ 0) ea b) v (alignment_record-AllBelow 1 layouts)
            (align_to_bounds (fields_end 0 layouts) _ g).0),
    )

-- Every payload fits between `offset` and `end` and is aligned there.
abbrev pub PayloadsFit : ℕ → ℕ → ℕ → List Layout → Type 0
PayloadsFit base offset end [] = Unit
PayloadsFit base offset end (c ∷ cs) =
    ((base + offset) % c.align ≡ 0) × (offset + c.size ≤ end) × PayloadsFit base offset end cs

abbrev CasesBelow : ℕ → ℕ → List Layout → Type 0
CasesBelow a s [] = Unit
CasesBelow a s (c ∷ cs) = (c.align ≤ a) × (c.size ≤ s) × CasesBelow a s cs

le-max_case_alignment : (a : ℕ) (cs : List Layout) → a ≤ max_case_alignment a cs
unfolding max_case_alignment
le-max_case_alignment a [] = omega arith
le-max_case_alignment a (c ∷ cs) = omega (arith, le-max_case_alignment (max a c.align) cs)

le-max_case_size : (s : ℕ) (cs : List Layout) → s ≤ max_case_size s cs
unfolding max_case_size
le-max_case_size s [] = omega arith
le-max_case_size s (c ∷ cs) = omega (arith, le-max_case_size (max s c.size) cs)

max_case-CasesBelow :
    (a s : ℕ) (cs : List Layout) → CasesBelow (max_case_alignment a cs) (max_case_size s cs) cs
unfolding max_case_alignment max_case_size
max_case-CasesBelow a s [] = tt
max_case-CasesBelow a s (c ∷ cs) = (
  omega (arith, le-max_case_alignment (max a c.align) cs),
  omega (arith, le-max_case_size (max s c.size) cs),
  max_case-CasesBelow (max a c.align) (max s c.size) cs,
)

CasesBelow-PayloadsFit :
    (base offset end a s : ℕ) (cs : List Layout)
    → IsAlign a
    → (base + offset) % a ≡ 0
    → offset + s ≤ end
    → AllLawful cs
    → CasesBelow a s cs
    → PayloadsFit base offset end cs
CasesBelow-PayloadsFit base offset end a s [] g b le v k = tt
CasesBelow-PayloadsFit base offset end a s (c ∷ cs) g b le v k = (
  mod-le-align (base + offset) c.align a v.0.aligned g k.0 b,
  omega arith,
  CasesBelow-PayloadsFit base offset end a s cs g b le v.1 k.2,
)

variant_layout-eq-ok :
    (d : DespecializedType) (n : ℕ) (cs : List Layout) {l : Layout}
    → IsAlign n
    → AllLawful cs
    → variant_layout d n cs ≡ ok l
    → (l.align ≡ alignment_variant n cs)
      × (l.size ≡ elem_size_variant n cs)
      × (l.disc_size ≡ n)
      × (l.payload_offset ≡ align_to n (max_case_alignment 1 cs))
unfolding variant_layout
variant_layout-eq-ok d n cs h v e = ground (
  arith,
  mk_layout-eq-ok d (alignment_variant n cs) (elem_size_variant n cs) none n
      (align_to n (max_case_alignment 1 cs)) (alignment_variant-IsAlign n cs h v),
)

discriminant_size_cases :
    (n : ℕ) {k : ℕ}
    → discriminant_size n ≡ ok k
    → ((k ≡ 1) × (n ≤ 256)) ⊎ (((k ≡ 2) × (n ≤ 256 ^ 2)) ⊎ ((k ≡ 4) × (n ≤ 256 ^ 4)))
unfolding discriminant_size
discriminant_size_cases n h = ground arith

-- A discriminant of the width that is chosen can hold every case index.
discriminant_size-bound : (n : ℕ) {k : ℕ} → discriminant_size n ≡ ok k → n ≤ 256 ^ k
discriminant_size-bound n {k} h = elim (discriminant_size_cases n h) [
  | inl (e, le) ↦ rw e (omega arith)
  | inr (inl (e, le)) ↦ rw e le
  | inr (inr (e, le)) ↦ rw e le
]

variant_fits :
    (base n : ℕ) (cs : List Layout)
    → IsAlign n
    → AllLawful cs
    → base % alignment_variant n cs ≡ 0
    → (base % n ≡ 0)
      × (n ≤ align_to n (max_case_alignment 1 cs))
      × PayloadsFit base (align_to n (max_case_alignment 1 cs)) (elem_size_variant n cs) cs
unfolding alignment_variant elem_size_variant
variant_fits base n cs h v b =
    let m = max_case_alignment 1 cs in
    let g = max_case_alignment-IsAlign 1 cs (inl refl) v in
    let a = max-IsAlign n m h g in
    let bounds = align_to_bounds n m g in
    (
      mod-le-align base n (max n m) h a (omega arith) b,
      bounds.0,
      CasesBelow-PayloadsFit base (align_to n m) _ m (max_case_size 0 cs) cs g
          (add-mod-align base (align_to n m) m g (mod-le-align base m (max n m) g a (omega arith) b)
            bounds.1)
          (align_to_bounds (align_to n m + max_case_size 0 cs) (max n m) a).0 v
          (max_case-CasesBelow 1 0 cs),
    )

-- In the layout of a variant the discriminant, at the start, is aligned and wide enough for every
-- case index, the payload lies behind it, and the payload of every case is aligned and inside the
-- variant, when the variant is aligned at its own address.
pub compute_layout-PayloadsFit :
    (ptr : PtrType) (cs : Cases) (base : ℕ) {l : Layout} {layouts : List Layout}
    → case_layouts ptr cs ≡ ok layouts
    → compute_layout ptr (variant cs) ≡ ok l
    → base % l.align ≡ 0
    → (base % l.disc_size ≡ 0)
      × (case_count cs ≤ 256 ^ l.disc_size)
      × (l.disc_size ≤ l.payload_offset)
      × PayloadsFit base l.payload_offset l.size layouts
unfolding compute_layout
compute_layout-PayloadsFit ptr cs base {l} {layouts} h e b =
    let (n, en, rest) = >>=-eq-ok (discriminant_size (case_count cs)) _ e in
    let v = case_layouts-Lawful ptr cs h in
    let g = Ensures-ok IsAlign _ (discriminant_size-IsAlign (case_count cs)) en in
    let (ea, es, ed, ep) = variant_layout-eq-ok (variant cs) n layouts g v (rw h at rest) in
    let fits = variant_fits base n layouts g v (subst (λ a. base % a ≡ 0) ea b) in
    rw (ed, ep, es) (fits.0, discriminant_size-bound (case_count cs) en, fits.1, fits.2)

pub compute_layout-variant_bounds :
    (ptr : PtrType) (cs : Cases) {l : Layout}
    → compute_layout ptr (variant cs) ≡ ok l
    → (0 < l.disc_size) × (l.payload_offset ≤ l.size) × IsOk (case_layouts ptr cs)
unfolding compute_layout elem_size_variant
compute_layout-variant_bounds ptr cs {l} e =
    let (n, en, rest) = >>=-eq-ok (discriminant_size (case_count cs)) _ e in
    let (layouts, ec, made) = >>=-eq-ok (case_layouts ptr cs) _ rest in
    let v = case_layouts-Lawful ptr cs ec in
    let g = Ensures-ok IsAlign _ (discriminant_size-IsAlign (case_count cs)) en in
    let (ea, es, ed, ep) = variant_layout-eq-ok (variant cs) n layouts g v made in
    let offset = align_to n (max_case_alignment 1 layouts) in
    let whole =
      align_to_bounds (offset + max_case_size 0 layouts) _
        (alignment_variant-IsAlign n layouts g v) in
    rw (ed, ep, es) (omega arith, omega arith, (layouts, ec))
