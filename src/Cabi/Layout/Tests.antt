-- ===== src/Cabi/Layout/Tests.antt =====
-- Layouts of concrete types, and the theorems at them.
use polyengine.Base.{
  ℕ, ◌%◌, ◌^◌, ◌≤◌, ◌<◌, ◌≡◌, refl, none, some, List, [], ◌∷◌, arith, ok, err, assertion_error,
  error,
}
use polyengine.Cabi.Types.{PtrType, u8, u64, string}
use polyengine.Cabi.Despecialized.{
  prim, record_type, variant, null, type, Fields, no_fields, field_then, Cases, no_cases, case_then,
  discriminant_size, case_count,
}
use polyengine.Cabi.Layout.{
  align_to, Layout, is_power_of_two, mk_layout, alignment_record, fields_end, elem_size_record,
  offsets_from, record_layout, max_case_alignment, max_case_size, alignment_variant,
  elem_size_variant, variant_layout, elem_size_flags, flags_layout, prim_layout, compute_layout,
  field_layouts, case_layouts,
}
use polyengine.Cabi.Layout.Lawful.{Lawful, compute_layout-Lawful}
use polyengine.Cabi.Layout.Placement.{
  Placed, compute_layout-Placed, PayloadsFit, compute_layout-PayloadsFit,
}
use polyengine.Cabi.Layout.Total.{IsWellFormed, compute_layout_total}

abbrev maybe_cases : Cases
maybe_cases = case_then "none" null (case_then "some" (type (prim u64)) no_cases)

abbrev entry_fields : Fields
entry_fields =
    field_then "tag" (prim u8)
      (field_then "count" (variant maybe_cases) (field_then "name" (prim string) no_fields))

-- What a test of the layout code unfolds.
layout_code : ℕ
unfolding compute_layout record_layout variant_layout flags_layout prim_layout mk_layout
    is_power_of_two elem_size_record elem_size_variant elem_size_flags offsets_from fields_end
    alignment_record max_case_alignment max_case_size alignment_variant align_to discriminant_size
    case_count
layout_code = 0

abbrev u8_layout : Layout
u8_layout = record {
  d = prim u8;
  align = 1;
  size = 1;
  field_offsets = none;
  disc_size = 0;
  payload_offset = 0;
}

abbrev u64_layout : Layout
u64_layout = record {
  d = prim u64;
  align = 8;
  size = 8;
  field_offsets = none;
  disc_size = 0;
  payload_offset = 0;
}

abbrev maybe_layout : Layout
maybe_layout = record {
  d = variant maybe_cases;
  align = 8;
  size = 16;
  field_offsets = none;
  disc_size = 1;
  payload_offset = 8;
}

abbrev string_layout : Layout
string_layout = record {
  d = prim string;
  align = 4;
  size = 8;
  field_offsets = none;
  disc_size = 0;
  payload_offset = 0;
}

abbrev entry_layout : Layout
entry_layout = record {
  d = record_type entry_fields;
  align = 8;
  size = 32;
  field_offsets = some (0 ∷ 8 ∷ 24 ∷ []);
  disc_size = 0;
  payload_offset = 0;
}

entry_layout_lem : compute_layout PtrType.i32 (record_type entry_fields) ≡ ok entry_layout
unfolding layout_code
entry_layout_lem = refl

empty_record :
    compute_layout PtrType.i32 (record_type no_fields) ≡ err (assertion_error "empty record")
unfolding layout_code
empty_record = refl

empty_variant :
    compute_layout PtrType.i64 (variant no_cases) ≡ err (error "assertion failed: case count")
unfolding layout_code
empty_variant = refl

compute_layout-Lawful_example : Lawful entry_layout
compute_layout-Lawful_example =
    compute_layout-Lawful PtrType.i32 (record_type entry_fields) entry_layout_lem

entry_layouts :
    field_layouts PtrType.i32 entry_fields ≡ ok (u8_layout ∷ maybe_layout ∷ string_layout ∷ [])
unfolding layout_code
entry_layouts = refl

compute_layout-Placed_example :
    (os : List ℕ) × (entry_layout.field_offsets ≡ some os)
    × Placed 64 32 0 (u8_layout ∷ maybe_layout ∷ string_layout ∷ []) os
compute_layout-Placed_example =
    compute_layout-Placed PtrType.i32 entry_fields 64 entry_layouts entry_layout_lem refl

payload_layouts : case_layouts PtrType.i32 maybe_cases ≡ ok (u64_layout ∷ [])
unfolding layout_code
payload_layouts = refl

maybe_layout_lem : compute_layout PtrType.i32 (variant maybe_cases) ≡ ok maybe_layout
unfolding layout_code
maybe_layout_lem = refl

compute_layout-PayloadsFit_example :
    (24 % 1 ≡ 0) × (2 ≤ 256 ^ 1) × (1 ≤ 8) × PayloadsFit 24 8 16 (u64_layout ∷ [])
unfolding case_count
compute_layout-PayloadsFit_example =
    compute_layout-PayloadsFit PtrType.i32 maybe_cases 24 payload_layouts maybe_layout_lem refl

entry-IsWellFormed : IsWellFormed (record_type entry_fields)
unfolding IsWellFormed case_count
entry-IsWellFormed = (λ e. cc, (tt, ((omega arith, omega arith, (tt, tt)), (tt, tt))))

compute_layout_total_example :
    (l : Layout) × (compute_layout PtrType.i64 (record_type entry_fields) ≡ ok l) × (0 < l.size)
compute_layout_total_example =
    compute_layout_total PtrType.i64 (record_type entry_fields) entry-IsWellFormed
