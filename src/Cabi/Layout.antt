-- ===== src/Cabi/Layout.antt =====
-- runtime/src/cabi/layout.ts: alignment, size and offsets of component values in linear memory.
-- JavaScript numbers are exact here: sizes stay far below 2^53. A type is despecialized as a whole
-- before the traversal (Types/Despecialize); the memo tables hold what `compute_layout` returns.
pub mod Align
pub mod Lawful
pub mod Placement
mod Tests
pub mod Total
use Prim.Native.Nat.{bit_and}
use polyengine.Base.{
  ℕ, zero, suc, ◌+◌, ◌-◌, ◌*◌, ◌/◌, max, Bool, true, false, ◌&&◌, Option, none, some, List, [], ◌∷◌,
  String, Result, ok, err, ◌>>=◌, ◌>>◌, assert, ltb, leb, ◌==◌, if◌then◌else◌, length,
}
use polyengine.Cabi.Types.{
  PtrType, PrimKind, ValType, bool, s8, u8, s16, u16, s32, u32, s64, u64, f32, f64, char, string,
}
use polyengine.Cabi.Types.Despecialize.{despecialize_all}
use polyengine.Cabi.Despecialized.{
  DespecializedType, prim, error_context, list, record_type, variant, flags, own, borrow, stream,
  future, Payload, null, type, Fields, no_fields, field_then, Cases, no_cases, case_then,
  case_count, discriminant_size,
}

-- runtime/src/cabi/memory.ts
abbrev pub ptr_size : PtrType → ℕ
ptr_size PtrType.i32 = 4
ptr_size PtrType.i64 = 8

-- `Math.ceil(ptr / alignment) * alignment`
unfoldable pub align_to : ℕ → ℕ → ℕ
align_to ptr alignment = (ptr + alignment - 1) / alignment * alignment

pub record Layout : Type 0 where
  pub d : DespecializedType
  pub align : ℕ
  pub size : ℕ
  pub field_offsets : Option (List ℕ)
  pub disc_size : ℕ
  pub payload_offset : ℕ

unfoldable pub is_power_of_two : ℕ → Bool
is_power_of_two align = ltb 0 align && (bit_and align (align - 1) == 0)

unfoldable pub mk_layout : DespecializedType → ℕ → ℕ → Option (List ℕ) → ℕ → ℕ → Result Layout
mk_layout d align size field_offsets disc_size payload_offset = do
  assert (is_power_of_two align) "layout alignment must be a power of two"
  ok (record {
    d = d;
    align = align;
    size = size;
    field_offsets = field_offsets;
    disc_size = disc_size;
    payload_offset = payload_offset;
  })

-- The functions below read the layouts of the fields, or of the payloads of the cases, in order.
unfoldable pub alignment_record : ℕ → List Layout → ℕ
alignment_record a [] = a
alignment_record a (f ∷ fs) = alignment_record (max a f.align) fs

unfoldable pub fields_end : ℕ → List Layout → ℕ
fields_end s [] = s
fields_end s (f ∷ fs) = fields_end (align_to s f.align + f.size) fs

unfoldable pub elem_size_record : List Layout → Result ℕ
elem_size_record fs =
    let s = fields_end 0 fs in
    assert (ltb 0 s) "empty record" >> ok (align_to s (alignment_record 1 fs))

unfoldable pub offsets_from : ℕ → List Layout → List ℕ
offsets_from p [] = []
offsets_from p (f ∷ fs) =
    let offset = align_to p f.align in offset ∷ offsets_from (offset + f.size) fs

unfoldable pub record_layout : DespecializedType → List Layout → Result Layout
record_layout d fs = do
  size ← elem_size_record fs
  mk_layout d (alignment_record 1 fs) size (some (offsets_from 0 fs)) 0 0

unfoldable pub max_case_alignment : ℕ → List Layout → ℕ
max_case_alignment a [] = a
max_case_alignment a (c ∷ cs) = max_case_alignment (max a c.align) cs

unfoldable pub max_case_size : ℕ → List Layout → ℕ
max_case_size s [] = s
max_case_size s (c ∷ cs) = max_case_size (max s c.size) cs

unfoldable pub alignment_variant : ℕ → List Layout → ℕ
alignment_variant disc_size cs = max disc_size (max_case_alignment 1 cs)

unfoldable pub elem_size_variant : ℕ → List Layout → ℕ
elem_size_variant disc_size cs =
    align_to (align_to disc_size (max_case_alignment 1 cs) + max_case_size 0 cs)
      (alignment_variant disc_size cs)

unfoldable pub variant_layout : DespecializedType → ℕ → List Layout → Result Layout
variant_layout d disc_size cs =
    mk_layout d (alignment_variant disc_size cs) (elem_size_variant disc_size cs) none disc_size
      (align_to disc_size (max_case_alignment 1 cs))

-- `alignmentFlags` and `elemSizeFlags`, which have the same body.
unfoldable pub elem_size_flags : ℕ → Result ℕ
elem_size_flags n = do
  assert (ltb 0 n && leb n 32) "flags label count"
  ok (if leb n 8 then 1 else if leb n 16 then 2 else 4)

unfoldable pub prim_layout : DespecializedType → PtrType → PrimKind → Result Layout
prim_layout d ptr bool = mk_layout d 1 1 none 0 0
prim_layout d ptr s8 = mk_layout d 1 1 none 0 0
prim_layout d ptr u8 = mk_layout d 1 1 none 0 0
prim_layout d ptr s16 = mk_layout d 2 2 none 0 0
prim_layout d ptr u16 = mk_layout d 2 2 none 0 0
prim_layout d ptr s32 = mk_layout d 4 4 none 0 0
prim_layout d ptr u32 = mk_layout d 4 4 none 0 0
prim_layout d ptr f32 = mk_layout d 4 4 none 0 0
prim_layout d ptr char = mk_layout d 4 4 none 0 0
prim_layout d ptr s64 = mk_layout d 8 8 none 0 0
prim_layout d ptr u64 = mk_layout d 8 8 none 0 0
prim_layout d ptr f64 = mk_layout d 8 8 none 0 0
prim_layout d ptr string = mk_layout d (ptr_size ptr) (2 * ptr_size ptr) none 0 0

unfoldable pub flags_layout : List String → Result Layout
flags_layout ls = do
  align ← elem_size_flags (length ls)
  size ← elem_size_flags (length ls)
  mk_layout (flags ls) align size none 0 0

unfoldable mutual
  pub compute_layout : PtrType → DespecializedType → Result Layout
  compute_layout ptr (prim p) = prim_layout (prim p) ptr p
  compute_layout ptr error_context = mk_layout error_context 4 4 none 0 0
  compute_layout ptr (list t none) =
      mk_layout (list t none) (ptr_size ptr) (2 * ptr_size ptr) none 0 0
  compute_layout ptr (list t (some n)) = do
    element ← compute_layout ptr t
    mk_layout (list t (some n)) element.align (n * element.size) none 0 0
  compute_layout ptr (record_type fs) = do
    layouts ← field_layouts ptr fs
    record_layout (record_type fs) layouts
  compute_layout ptr (variant cs) = do
    disc_size ← discriminant_size (case_count cs)
    layouts ← case_layouts ptr cs
    variant_layout (variant cs) disc_size layouts
  compute_layout ptr (flags ls) = flags_layout ls
  compute_layout ptr (own r) = mk_layout (own r) 4 4 none 0 0
  compute_layout ptr (borrow r) = mk_layout (borrow r) 4 4 none 0 0
  compute_layout ptr (stream t) = mk_layout (stream t) 4 4 none 0 0
  compute_layout ptr (future t) = mk_layout (future t) 4 4 none 0 0

  pub field_layouts : PtrType → Fields → Result (List Layout)
  field_layouts ptr no_fields = ok []
  field_layouts ptr (field_then l t fs) = do
    first ← compute_layout ptr t
    rest ← field_layouts ptr fs
    ok (first ∷ rest)

  -- The layouts of the payloads, of the cases that have one.
  pub case_layouts : PtrType → Cases → Result (List Layout)
  case_layouts ptr no_cases = ok []
  case_layouts ptr (case_then l null cs) = case_layouts ptr cs
  case_layouts ptr (case_then l (type t) cs) = do
    first ← compute_layout ptr t
    rest ← case_layouts ptr cs
    ok (first ∷ rest)

unfoldable pub layout_of : ValType → PtrType → Result Layout
layout_of t ptr = compute_layout ptr (despecialize_all t)
