-- ===== src/Cabi/Spill/Tests.antt =====
-- Two values that are spilled when there may be one lane.
use polyengine.Base.{◌≡◌, refl, some, pos, [], ◌∷◌, List, ok, arith}
use polyengine.Cabi.Types.{PtrType, CoreType, u8, u16}
use polyengine.Cabi.Types.Despecialize.{index_label}
use polyengine.Cabi.Despecialized.{DespecializedType, prim}
use polyengine.Cabi.Layout.{
  Layout, compute_layout, record_layout, prim_layout, mk_layout, align_to, is_power_of_two,
  alignment_record, fields_end, elem_size_record, offsets_from,
}
use polyengine.Cabi.Flatten.{flatten_prim, flatten_type, flatten_types}
use polyengine.Cabi.Value.{object, int, element, no_elements, member_of}
use polyengine.Cabi.Bulk.{HostElements}
use polyengine.Cabi.Lists.{reallocate_by, reallocate, allocate, call_realloc}
use polyengine.Cabi.Memory.{fits_in_width}
use polyengine.Cabi.Spill.{spill_fields, spill_tuple_type, tuple_value}
use polyengine.Cabi.Spill.RoundTrip.{ValuesBack, lift_flat_values-lower_flat_values}
use polyengine.Cabi.Store.Typing.{Typed, PrimTyped, IntTyped}
use polyengine.Cabi.Store.Tests.{sample_host, start}

abbrev two_types : List DespecializedType
two_types = prim u8 ∷ prim u16 ∷ []

abbrev two_values : HostElements sample_host
two_values = element (int (pos 7)) (element (int (pos 500)) no_elements)

two_values-Typed :
    Typed sample_host (spill_tuple_type two_types) (object (tuple_value sample_host 0 two_values))
unfolding Typed PrimTyped IntTyped fits_in_width member_of spill_fields tuple_value index_label
two_values-Typed = (_, refl, (_, refl, (pos 7, refl, refl), (_, refl, (pos 500, refl, refl), refl)))

abbrev pair_layout : Layout
pair_layout = record {
  d = spill_tuple_type two_types;
  align = 2;
  size = 4;
  field_offsets = some (0 ∷ 2 ∷ []);
  disc_size = 0;
  payload_offset = 0;
}

compute_layout-pair : compute_layout PtrType.i32 (spill_tuple_type two_types) ≡ ok pair_layout
unfolding compute_layout record_layout prim_layout mk_layout align_to is_power_of_two
    alignment_record fields_end elem_size_record offsets_from spill_fields
compute_layout-pair = refl

flatten_types-pair :
    flatten_types (some PtrType.i32) two_types ≡ ok (CoreType.i32 ∷ CoreType.i32 ∷ [])
unfolding flatten_types flatten_type flatten_prim
flatten_types-pair = refl

allocated : allocate sample_host start 2 4 ≡ ok (8, start)
unfolding allocate reallocate reallocate_by call_realloc
allocated = refl

lift_flat_values-lower_flat_values_example : ValuesBack sample_host 1 two_types start two_values 8 4
lift_flat_values-lower_flat_values_example =
    lift_flat_values-lower_flat_values sample_host 1 two_types start start two_values 8
      {l = pair_layout} {lanes = CoreType.i32 ∷ CoreType.i32 ∷ []} two_values-Typed
      compute_layout-pair flatten_types-pair (omega arith)
      (allocated, refl, refl, omega arith, omega arith)
