-- ===== src/Cabi/Layout/Total.antt =====
-- Which types have a layout.
use polyengine.Base.{
  ℕ, ◌+◌, ◌*◌, ◌%◌, ◌^◌, ◌≤◌, ◌<◌, ◌≡◌, refl, ◌≢◌, leb, if◌then◌else◌, inl, Option, none, some,
  List, [], ◌∷◌, String, arith, ok, Returns, Returns-bind, length,
}
use polyengine.Cabi.Types.{PtrType, PrimKind, bool, s8, u8, s16, u16, s64, u64, f64, string}
use polyengine.Cabi.Despecialized.{
  DespecializedType, prim, error_context, list, record_type, variant, flags, own, borrow, stream,
  future, null, type, Fields, no_fields, field_then, Cases, no_cases, case_then, case_count,
  discriminant_size,
}
use polyengine.Cabi.Layout.{
  ptr_size, align_to, Layout, mk_layout, alignment_record, fields_end, elem_size_record,
  record_layout, max_case_alignment, elem_size_variant, alignment_variant, max_case_size,
  variant_layout, elem_size_flags, flags_layout, prim_layout, compute_layout, field_layouts,
  case_layouts,
}
use polyengine.Cabi.Layout.Align.{IsAlign, IsAlign-elim, align_to_bounds, mul-mod-align}
use polyengine.Cabi.Layout.Lawful.{
  Lawful, AllLawful, mk_layout-eq-ok, max_case_alignment-IsAlign, alignment_record-IsAlign,
  alignment_variant-IsAlign,
}

-- Records and fixed-length lists are not empty, variants and flags have a number of labels that
-- their discriminant or bit set can hold.
unfoldable mutual
  pub IsWellFormed : DespecializedType → Type 0
  IsWellFormed (list t none) = Unit
  IsWellFormed (list t (some n)) = (0 < n) × IsWellFormed t
  IsWellFormed (record_type fs) = (fs ≢ no_fields) × AreFields fs
  IsWellFormed (variant cs) = (0 < case_count cs) × (case_count cs < 2 ^ 32) × AreCases cs
  IsWellFormed (flags ls) = (0 < length ls) × (length ls ≤ 32)
  IsWellFormed _ = Unit

  AreFields : Fields → Type 0
  AreFields no_fields = Unit
  AreFields (field_then l t fs) = IsWellFormed t × AreFields fs

  AreCases : Cases → Type 0
  AreCases no_cases = Unit
  AreCases (case_then l null cs) = AreCases cs
  AreCases (case_then l (type t) cs) = IsWellFormed t × AreCases cs

-- Used for layouts that a computation has returned.
abbrev IsPositive : Layout → Type 0
IsPositive l = Lawful l × (0 < l.size)

abbrev FieldsPositive : Fields → List Layout → Type 0
FieldsPositive fs ls = AllLawful ls × ((fs ≢ no_fields) → 0 < fields_end 0 ls)

le-fields_end : (s : ℕ) (ls : List Layout) → AllLawful ls → s ≤ fields_end s ls
unfolding fields_end
le-fields_end s [] v = omega arith
le-fields_end s (f ∷ fs) v = omega (
  arith,
  le-fields_end (align_to s f.align + f.size) fs v.1,
  (align_to_bounds s f.align v.0.aligned).0,
)

mk_layout-IsPositive :
    (d : DespecializedType) (align size : ℕ) (offsets : Option (List ℕ)) (disc_size payload : ℕ)
    → IsAlign align
    → size % align ≡ 0
    → 0 < size
    → Returns IsPositive (mk_layout d align size offsets disc_size payload)
mk_layout-IsPositive d align size offsets disc_size payload h e p = (
  _,
  mk_layout-eq-ok d align size offsets disc_size payload h,
  (record { aligned = h; whole = e }, p),
)

record_layout-IsPositive :
    (d : DespecializedType) (ls : List Layout)
    → AllLawful ls
    → 0 < fields_end 0 ls
    → Returns IsPositive (record_layout d ls)
unfolding record_layout elem_size_record
record_layout-IsPositive d ls v p =
    let a = alignment_record 1 ls in
    let g = alignment_record-IsAlign 1 ls (inl refl) v in
    let bounds = align_to_bounds (fields_end 0 ls) a g in
    Returns-bind (λ size. (size % a ≡ 0) × (0 < size)) IsPositive (elem_size_record ls) _
      (align_to (fields_end 0 ls) a, ground arith, (bounds.1, omega arith))
      (λ size (e, q). mk_layout-IsPositive d a size _ 0 0 g e q)

variant_layout-IsPositive :
    (d : DespecializedType) (n : ℕ) (ls : List Layout)
    → IsAlign n
    → AllLawful ls
    → Returns IsPositive (variant_layout d n ls)
unfolding variant_layout elem_size_variant
variant_layout-IsPositive d n ls h v =
    let m = max_case_alignment 1 ls in
    let a = alignment_variant-IsAlign n ls h v in
    let inner = align_to_bounds n m (max_case_alignment-IsAlign 1 ls (inl refl) v) in
    let bounds = align_to_bounds (align_to n m + max_case_size 0 ls) (alignment_variant n ls) a in
    mk_layout-IsPositive d (alignment_variant n ls) _ none n _ a bounds.1 (omega (arith, h))

discriminant_size-Returns : (n : ℕ) → 0 < n → n < 2 ^ 32 → Returns IsAlign (discriminant_size n)
unfolding discriminant_size
discriminant_size-Returns n p q =
    (if leb n 256 then 1 else if leb n 65536 then 2 else 4, ground arith, ground arith)

elem_size_flags-Returns : (n : ℕ) → 0 < n → n ≤ 32 → Returns IsAlign (elem_size_flags n)
unfolding elem_size_flags
elem_size_flags-Returns n p q =
    (if leb n 8 then 1 else if leb n 16 then 2 else 4, ground arith, ground arith)

square-IsPositive :
    (d : DespecializedType) (n : ℕ) → IsAlign n → Returns IsPositive (mk_layout d n n none 0 0)
square-IsPositive d n h =
    mk_layout-IsPositive d n n none 0 0 h (IsAlign-elim (λ n. n % n ≡ 0) refl refl refl refl n h)
      (omega arith)

flags_layout-IsPositive :
    (ls : List String) → 0 < length ls → length ls ≤ 32 → Returns IsPositive (flags_layout ls)
unfolding flags_layout
flags_layout-IsPositive ls p q =
    let (n, e, h) = elem_size_flags-Returns (length ls) p q in
    rw e (square-IsPositive (flags ls) n h)

pair-IsPositive :
    (d : DespecializedType) (ptr : PtrType)
    → Returns IsPositive (mk_layout d (ptr_size ptr) (2 * ptr_size ptr) none 0 0)
pair-IsPositive d PtrType.i32 = mk_layout-IsPositive d 4 8 none 0 0 (omega arith) refl (omega arith)
pair-IsPositive d PtrType.i64 =
    mk_layout-IsPositive d 8 16 none 0 0 (omega arith) refl (omega arith)

prim_layout-IsPositive :
    (d : DespecializedType) (ptr : PtrType) (p : PrimKind)
    → Returns IsPositive (prim_layout d ptr p)
unfolding prim_layout
prim_layout-IsPositive d ptr bool = square-IsPositive d 1 (omega arith)
prim_layout-IsPositive d ptr s8 = square-IsPositive d 1 (omega arith)
prim_layout-IsPositive d ptr u8 = square-IsPositive d 1 (omega arith)
prim_layout-IsPositive d ptr s16 = square-IsPositive d 2 (omega arith)
prim_layout-IsPositive d ptr u16 = square-IsPositive d 2 (omega arith)
prim_layout-IsPositive d ptr s64 = square-IsPositive d 8 (omega arith)
prim_layout-IsPositive d ptr u64 = square-IsPositive d 8 (omega arith)
prim_layout-IsPositive d ptr f64 = square-IsPositive d 8 (omega arith)
prim_layout-IsPositive d ptr string = pair-IsPositive d ptr
prim_layout-IsPositive d ptr _ = square-IsPositive d 4 (omega arith)

mul-pos : (n s : ℕ) → 0 < n → 0 < s → 0 < n * s
mul-pos n s h k = grind arith

fields_end_pos :
    (first : Layout) (rest : List Layout)
    → Lawful first
    → 0 < first.size
    → AllLawful rest
    → 0 < fields_end 0 (first ∷ rest)
unfolding fields_end
fields_end_pos first rest v p vs =
    omega (arith, le-fields_end (align_to 0 first.align + first.size) rest vs)

mutual
  unfolding compute_layout IsWellFormed

  compute_layout-Returns :
      (ptr : PtrType) (d : DespecializedType)
      → IsWellFormed d
      → Returns IsPositive (compute_layout ptr d)
  compute_layout-Returns ptr (prim p) w = prim_layout-IsPositive (prim p) ptr p
  compute_layout-Returns ptr error_context w = square-IsPositive error_context 4 (omega arith)
  compute_layout-Returns ptr (list t none) w = pair-IsPositive (list t none) ptr
  compute_layout-Returns ptr (list t (some n)) w =
      Returns-bind IsPositive IsPositive (compute_layout ptr t) _ (compute_layout-Returns ptr t w.1)
        λ l (v, p).
          mk_layout-IsPositive (list t (some n)) l.align (n * l.size) none 0 0 v.aligned
            (mul-mod-align n l.size l.align v.aligned v.whole) (mul-pos n l.size w.0 p)
  compute_layout-Returns ptr (record_type fs) w =
      Returns-bind (FieldsPositive fs) IsPositive (field_layouts ptr fs) _
        (field_layouts-Returns ptr fs w.1)
        λ ls (v, p). record_layout-IsPositive (record_type fs) ls v (p w.0)
  compute_layout-Returns ptr (variant cs) w =
      Returns-bind IsAlign IsPositive (discriminant_size (case_count cs)) _
        (discriminant_size-Returns (case_count cs) w.0 w.1)
        λ n a.
          Returns-bind AllLawful IsPositive (case_layouts ptr cs) _
            (case_layouts-Returns ptr cs w.2)
            λ ls v. variant_layout-IsPositive (variant cs) n ls a v
  compute_layout-Returns ptr (flags ls) w = flags_layout-IsPositive ls w.0 w.1
  compute_layout-Returns ptr (own r) w = square-IsPositive (own r) 4 (omega arith)
  compute_layout-Returns ptr (borrow r) w = square-IsPositive (borrow r) 4 (omega arith)
  compute_layout-Returns ptr (stream t) w = square-IsPositive (stream t) 4 (omega arith)
  compute_layout-Returns ptr (future t) w = square-IsPositive (future t) 4 (omega arith)

  field_layouts-Returns :
      (ptr : PtrType) (fs : Fields)
      → AreFields fs
      → Returns (FieldsPositive fs) (field_layouts ptr fs)
  field_layouts-Returns ptr no_fields w = ([], refl, (tt, λ h. absurd (h refl)))
  field_layouts-Returns ptr (field_then l t fs) w =
      Returns-bind IsPositive (FieldsPositive (field_then l t fs)) (compute_layout ptr t) _
        (compute_layout-Returns ptr t w.0)
        λ first (v, p).
          Returns-bind (FieldsPositive fs) (FieldsPositive (field_then l t fs))
            (field_layouts ptr fs) _ (field_layouts-Returns ptr fs w.1)
            λ rest (vs, _). (first ∷ rest, refl, ((v, vs), λ _. fields_end_pos first rest v p vs))

  case_layouts-Returns :
      (ptr : PtrType) (cs : Cases) → AreCases cs → Returns AllLawful (case_layouts ptr cs)
  case_layouts-Returns ptr no_cases w = ([], refl, tt)
  case_layouts-Returns ptr (case_then l null cs) w = case_layouts-Returns ptr cs w
  case_layouts-Returns ptr (case_then l (type t) cs) w =
      Returns-bind IsPositive AllLawful (compute_layout ptr t) _ (compute_layout-Returns ptr t w.0)
        λ first (v, _).
          Returns-bind AllLawful AllLawful (case_layouts ptr cs) _ (case_layouts-Returns ptr cs w.1)
            λ rest vs. (first ∷ rest, refl, (v, vs))

-- For a well-formed type no assertion of the layout code fails, for either pointer width: a layout
-- is returned, and its size is not zero.
pub compute_layout_total :
    (ptr : PtrType) (d : DespecializedType)
    → IsWellFormed d
    → (l : Layout) × (compute_layout ptr d ≡ ok l) × (0 < l.size)
compute_layout_total ptr d w = let (l, e, (v, p)) = compute_layout-Returns ptr d w in (l, e, p)
