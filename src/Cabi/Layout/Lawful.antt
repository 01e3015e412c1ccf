-- ===== src/Cabi/Layout/Lawful.antt =====
-- Every layout has a power of two as its alignment, which divides its size.
use polyengine.Base.{
  ℕ, ◌*◌, ◌%◌, max, ◌≡◌, refl, inl, Option, none, some, List, [], ◌∷◌, arith, Result, ok, err,
  ◌>>=◌, Ensures, Ensures-bind, Ensures-ok, length, String,
}
use polyengine.Cabi.Types.{PtrType, PrimKind, bool, s8, u8, s16, u16, s64, u64, f64, string}
use polyengine.Cabi.Despecialized.{
  DespecializedType, prim, error_context, list, record_type, variant, flags, own, borrow, stream,
  future, null, type, Fields, no_fields, field_then, Cases, no_cases, case_then, case_count,
  discriminant_size,
}
use polyengine.Cabi.Layout.{
  ptr_size, Layout, mk_layout, alignment_record, fields_end, elem_size_record, record_layout,
  max_case_alignment, alignment_variant, elem_size_variant, variant_layout, elem_size_flags,
  flags_layout, prim_layout, compute_layout, field_layouts, case_layouts,
}
use polyengine.Cabi.Layout.Align.{
  IsAlign, IsAlign-elim, align_to_bounds, max-IsAlign, IsAlign-is_power_of_two, mul-mod-align,
}

pub record Lawful (l : Layout) : Type 0 where
  pub aligned : IsAlign l.align
  pub whole : l.size % l.align ≡ 0

abbrev pub AllLawful : List Layout → Type 0
AllLawful [] = Unit
AllLawful (l ∷ ls) = Lawful l × AllLawful ls

pub mk_layout-eq-ok :
    (d : DespecializedType) (align size : ℕ) (offsets : Option (List ℕ)) (disc_size payload : ℕ)
    → IsAlign align
    → mk_layout d align size offsets disc_size payload
      ≡ ok (record {
        d = d;
        align = align;
        size = size;
        field_offsets = offsets;
        disc_size = disc_size;
        payload_offset = payload;
      })
unfolding mk_layout
mk_layout-eq-ok d align size offsets disc_size payload h = rw (IsAlign-is_power_of_two align h)

mk_layout-Lawful :
    (d : DespecializedType) (align size : ℕ) (offsets : Option (List ℕ)) (disc_size payload : ℕ)
    → IsAlign align
    → size % align ≡ 0
    → Ensures Lawful (mk_layout d align size offsets disc_size payload)
mk_layout-Lawful d align size offsets disc_size payload h e =
    rw (mk_layout-eq-ok d align size offsets disc_size payload h)
      (record { aligned = h; whole = e })

pub alignment_record-IsAlign :
    (a : ℕ) (ls : List Layout) → IsAlign a → AllLawful ls → IsAlign (alignment_record a ls)
unfolding alignment_record
alignment_record-IsAlign a [] h k = h
alignment_record-IsAlign a (l ∷ ls) h k =
    alignment_record-IsAlign (max a l.align) ls (max-IsAlign a l.align h k.0.aligned) k.1

pub max_case_alignment-IsAlign :
    (a : ℕ) (ls : List Layout) → IsAlign a → AllLawful ls → IsAlign (max_case_alignment a ls)
unfolding max_case_alignment
max_case_alignment-IsAlign a [] h k = h
max_case_alignment-IsAlign a (l ∷ ls) h k =
    max_case_alignment-IsAlign (max a l.align) ls (max-IsAlign a l.align h k.0.aligned) k.1

pub discriminant_size-IsAlign : (n : ℕ) → Ensures IsAlign (discriminant_size n)
unfolding discriminant_size
discriminant_size-IsAlign n = ground arith

pub alignment_variant-IsAlign :
    (n : ℕ) (ls : List Layout) → IsAlign n → AllLawful ls → IsAlign (alignment_variant n ls)
unfolding alignment_variant
alignment_variant-IsAlign n ls h k =
    max-IsAlign n (max_case_alignment 1 ls) h (max_case_alignment-IsAlign 1 ls (inl refl) k)

elem_size_record-whole :
    (ls : List Layout)
    → AllLawful ls
    → Ensures (λ size. size % alignment_record 1 ls ≡ 0) (elem_size_record ls)
unfolding elem_size_record
elem_size_record-whole ls h =
    let whole =
      (align_to_bounds (fields_end 0 ls) _ (alignment_record-IsAlign 1 ls (inl refl) h)).1 in
    ground arith

record_layout-Lawful :
    (d : DespecializedType) (ls : List Layout) → AllLawful ls → Ensures Lawful (record_layout d ls)
unfolding record_layout
record_layout-Lawful d ls h =
    let a = alignment_record-IsAlign 1 ls (inl refl) h in
    Ensures-bind (λ size. size % alignment_record 1 ls ≡ 0) Lawful (elem_size_record ls) _
      (elem_size_record-whole ls h) (λ size e. mk_layout-Lawful d _ size _ 0 0 a e)

elem_size_variant-whole :
    (n : ℕ) (ls : List Layout)
    → IsAlign (alignment_variant n ls)
    → elem_size_variant n ls % alignment_variant n ls ≡ 0
unfolding elem_size_variant
elem_size_variant-whole n ls a = (align_to_bounds _ (alignment_variant n ls) a).1

variant_layout-Lawful :
    (d : DespecializedType) (n : ℕ) (ls : List Layout)
    → IsAlign n
    → AllLawful ls
    → Ensures Lawful (variant_layout d n ls)
unfolding variant_layout
variant_layout-Lawful d n ls h k =
    let a = alignment_variant-IsAlign n ls h k in
    mk_layout-Lawful d _ (elem_size_variant n ls) _ n _ a (elem_size_variant-whole n ls a)

ptr_size-IsAlign : (ptr : PtrType) → IsAlign (ptr_size ptr)
ptr_size-IsAlign PtrType.i32 = omega arith
ptr_size-IsAlign PtrType.i64 = omega arith

ptr_size_whole : (ptr : PtrType) → (2 * ptr_size ptr) % ptr_size ptr ≡ 0
ptr_size_whole PtrType.i32 = refl
ptr_size_whole PtrType.i64 = refl

elem_size_flags-IsAlign : (n : ℕ) → Ensures IsAlign (elem_size_flags n)
unfolding elem_size_flags
elem_size_flags-IsAlign n = ground arith

square-Lawful :
    (d : DespecializedType) (n : ℕ) → IsAlign n → Ensures Lawful (mk_layout d n n none 0 0)
square-Lawful d n h =
    mk_layout-Lawful d n n none 0 0 h (IsAlign-elim (λ n. n % n ≡ 0) refl refl refl refl n h)

prim_layout-Lawful :
    (d : DespecializedType) (ptr : PtrType) (p : PrimKind) → Ensures Lawful (prim_layout d ptr p)
unfolding prim_layout
prim_layout-Lawful d ptr bool = square-Lawful d 1 (omega arith)
prim_layout-Lawful d ptr s8 = square-Lawful d 1 (omega arith)
prim_layout-Lawful d ptr u8 = square-Lawful d 1 (omega arith)
prim_layout-Lawful d ptr s16 = square-Lawful d 2 (omega arith)
prim_layout-Lawful d ptr u16 = square-Lawful d 2 (omega arith)
prim_layout-Lawful d ptr s64 = square-Lawful d 8 (omega arith)
prim_layout-Lawful d ptr u64 = square-Lawful d 8 (omega arith)
prim_layout-Lawful d ptr f64 = square-Lawful d 8 (omega arith)
prim_layout-Lawful d ptr string =
    mk_layout-Lawful d _ _ none 0 0 (ptr_size-IsAlign ptr) (ptr_size_whole ptr)
prim_layout-Lawful d ptr _ = square-Lawful d 4 (omega arith)

both-Lawful :
    (d : DespecializedType) (r : Result ℕ)
    → Ensures IsAlign r
    → Ensures Lawful (r >>= λ align. r >>= λ size. mk_layout d align size none 0 0)
both-Lawful d (ok n) h = square-Lawful d n h
both-Lawful d (err e) h = tt

flags_layout-Lawful : (ls : List String) → Ensures Lawful (flags_layout ls)
unfolding flags_layout
flags_layout-Lawful ls =
    both-Lawful (flags ls) (elem_size_flags (length ls)) (elem_size_flags-IsAlign (length ls))

mutual
  unfolding compute_layout

  compute_layout-Ensures :
      (ptr : PtrType) (d : DespecializedType) → Ensures Lawful (compute_layout ptr d)
  compute_layout-Ensures ptr (prim p) = prim_layout-Lawful (prim p) ptr p
  compute_layout-Ensures ptr error_context = square-Lawful error_context 4 (omega arith)
  compute_layout-Ensures ptr (list t none) =
      mk_layout-Lawful (list t none) _ _ none 0 0 (ptr_size-IsAlign ptr) (ptr_size_whole ptr)
  compute_layout-Ensures ptr (list t (some n)) =
      Ensures-bind Lawful Lawful (compute_layout ptr t) _ (compute_layout-Ensures ptr t) λ l v.
        mk_layout-Lawful (list t (some n)) l.align (n * l.size) none 0 0 v.aligned
          (mul-mod-align n l.size l.align v.aligned v.whole)
  compute_layout-Ensures ptr (record_type fs) =
      Ensures-bind AllLawful Lawful (field_layouts ptr fs) _ (field_layouts-Ensures ptr fs)
        λ ls v. record_layout-Lawful (record_type fs) ls v
  compute_layout-Ensures ptr (variant cs) =
      Ensures-bind IsAlign Lawful (discriminant_size (case_count cs)) _
        (discriminant_size-IsAlign (case_count cs))
        λ n a.
          Ensures-bind AllLawful Lawful (case_layouts ptr cs) _ (case_layouts-Ensures ptr cs)
            λ ls v. variant_layout-Lawful (variant cs) n ls a v
  compute_layout-Ensures ptr (flags ls) = flags_layout-Lawful ls
  compute_layout-Ensures ptr (own r) = square-Lawful (own r) 4 (omega arith)
  compute_layout-Ensures ptr (borrow r) = square-Lawful (borrow r) 4 (omega arith)
  compute_layout-Ensures ptr (stream t) = square-Lawful (stream t) 4 (omega arith)
  compute_layout-Ensures ptr (future t) = square-Lawful (future t) 4 (omega arith)

  field_layouts-Ensures : (ptr : PtrType) (fs : Fields) → Ensures AllLawful (field_layouts ptr fs)
  field_layouts-Ensures ptr no_fields = tt
  field_layouts-Ensures ptr (field_then l t fs) =
      Ensures-bind Lawful AllLawful (compute_layout ptr t) _ (compute_layout-Ensures ptr t) λ l v.
        Ensures-bind AllLawful AllLawful (field_layouts ptr fs) _ (field_layouts-Ensures ptr fs)
          λ ls vs. (v, vs)

  case_layouts-Ensures : (ptr : PtrType) (cs : Cases) → Ensures AllLawful (case_layouts ptr cs)
  case_layouts-Ensures ptr no_cases = tt
  case_layouts-Ensures ptr (case_then l null cs) = case_layouts-Ensures ptr cs
  case_layouts-Ensures ptr (case_then l (type t) cs) =
      Ensures-bind Lawful AllLawful (compute_layout ptr t) _ (compute_layout-Ensures ptr t) λ l v.
        Ensures-bind AllLawful AllLawful (case_layouts ptr cs) _ (case_layouts-Ensures ptr cs)
          λ ls vs. (v, vs)

-- A layout that is returned, for either pointer width, has alignment 1, 2, 4 or 8, and its size is
-- a multiple of the alignment.
pub compute_layout-Lawful :
    (ptr : PtrType) (d : DespecializedType) {l : Layout} → compute_layout ptr d ≡ ok l → Lawful l
compute_layout-Lawful ptr d e =
    Ensures-ok Lawful (compute_layout ptr d) (compute_layout-Ensures ptr d) e

pub field_layouts-Lawful :
    (ptr : PtrType) (fs : Fields) {ls : List Layout} → field_layouts ptr fs ≡ ok ls → AllLawful ls
field_layouts-Lawful ptr fs e =
    Ensures-ok AllLawful (field_layouts ptr fs) (field_layouts-Ensures ptr fs) e

pub case_layouts-Lawful :
    (ptr : PtrType) (cs : Cases) {ls : List Layout} → case_layouts ptr cs ≡ ok ls → AllLawful ls
case_layouts-Lawful ptr cs e =
    Ensures-ok AllLawful (case_layouts ptr cs) (case_layouts-Ensures ptr cs) e
