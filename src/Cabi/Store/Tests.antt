-- ===== src/Cabi/Store/Tests.antt =====
-- A record with a variant in a memory of sixteen bytes; the host has one value of its own and no
-- state.
use polyengine.Base.{
  inr, ℕ, ◌==◌, if◌then◌else◌, ◌≡◌, refl, none, some, pos, true, [], ◌∷◌, Result, ok, err, trap,
  assertion_error, Returns, arith,
}
use polyengine.Cabi.Types.{PtrType, u8, u32, f32}
use polyengine.Cabi.Despecialized.{
  DespecializedType, prim, record_type, variant, flags, Payload, type, field_then, Fields, Cases,
  case_then, discriminant_size, case_count,
}
use polyengine.Cabi.Layout.{
  flags_layout, Layout, compute_layout, record_layout, variant_layout, prim_layout, mk_layout,
  align_to, is_power_of_two, alignment_record, fields_end, elem_size_record, offsets_from,
  max_case_alignment, max_case_size, alignment_variant, elem_size_variant, elem_size_flags,
}
use polyengine.Cabi.Memory.{load_int_u, get_uint, store_int, set_uint, to_word, fits_in_width}
use polyengine.Cabi.Float.Sample.{samples, not_a_number}
use polyengine.Cabi.Value.{
  Value, Host, int, object, case_of, no_members, member, boolean, member_of, truthy, flag_bit,
  pack_flags_from, pack_flags_into_int,
}
use polyengine.Cabi.Value.{unpack_flags_from_int}
use polyengine.Cabi.Access.{
  HostValue, HostCx, place, load_prim, load_unsigned, load_float, case_label, convert_int_to_bool,
  load_flags, store_prim, store_number, store_flags, store_word, members_of, label_count,
  first_index,
}
use polyengine.Cabi.Store.{store, load}
use polyengine.Cabi.Store.Bounds.{InPlace, load-store-InPlace}
use polyengine.Cabi.Store.Typing.{Typed, PrimTyped, IntTyped}
use polyengine.Cabi.Store.Scalars.{Holds}
use polyengine.Cabi.Store.RoundTrip.{load-store}

abbrev pub sample_host : Host samples
sample_host = record {
  Other = Unit {0};
  State = Unit {0};
  truthy_number = λ f. true;
  truthy_other = λ x. true;
  little_endian = true;
  realloc = some (λ cx old old_byte_length alignment byte_length. ok (8, cx));
  may_leave = λ s. none;
  set_may_leave = λ b s. s;
  checkpoint = λ s. ok tt;
  load_other = λ d cx ptr. ok (tt, cx);
  store_other = λ d cx v ptr. ok cx;
  lift_other = λ d cx vs. ok (tt, cx);
  lower_other = λ d cx v. ok ([], cx);
}

abbrev pub start : HostCx sample_host
start = record {
  memory = record { byte = λ i. 0xaa; length = 16; addr_type = PtrType.i32; byte_offset = 0 };
  state = tt;
}

abbrev pub reading : DespecializedType
reading = record_type (
    field_then "unit" (prim u8) (
      field_then "level"
        (variant
          (case_then "unknown" Payload.null (case_then "known" (type (prim f32)) Cases.no_cases)))
        Fields.no_fields))

abbrev nan_level : HostValue sample_host
nan_level = object (
    member "unit" (int (pos 7))
      (member "level" (case_of "known" (Value.float not_a_number)) no_members))

nan_level-Typed : Typed sample_host reading nan_level
unfolding Typed PrimTyped IntTyped fits_in_width member_of label_count first_index
nan_level-Typed = (
  _,
  refl,
  (
    _,
    refl,
    (pos 7, refl, refl),
    (_, refl, ("known", _, refl, refl, (not_a_number, refl, tt)), refl),
  ),
)

abbrev pub reading_layout : Layout
reading_layout = record {
  d = reading;
  align = 4;
  size = 12;
  field_offsets = some (0 ∷ 4 ∷ []);
  disc_size = 0;
  payload_offset = 0;
}

reading_code : ℕ
unfolding compute_layout record_layout variant_layout prim_layout mk_layout align_to is_power_of_two
    alignment_record fields_end elem_size_record offsets_from max_case_alignment max_case_size
    alignment_variant elem_size_variant discriminant_size case_count
reading_code = 0

pub compute_layout-reading : compute_layout PtrType.i32 reading ≡ ok reading_layout
unfolding reading_code
compute_layout-reading = refl

-- The discriminant of the variant is at offset 4.
abbrev pub reading_of : ℕ → Result (HostValue sample_host × HostCx sample_host)
reading_of discriminant =
    load sample_host reading
      (record start {
        memory = record {
          byte = λ i. if i == 4 then discriminant else 0;
          length = 16;
          addr_type = PtrType.i32;
          byte_offset = 0;
        };
      })
      0

store_code : ℕ
unfolding reading_code load place load_prim load_unsigned load_float load_int_u get_uint case_label
    convert_int_to_bool load_flags unpack_flags_from_int elem_size_flags store store_prim
    store_number store_flags store_word store_int fits_in_width set_uint to_word members_of
    pack_flags_into_int pack_flags_from member_of truthy flag_bit
store_code = 0

unknown_case : reading_of 2 ≡ err (trap "discriminant out of range")
unfolding store_code flags_layout
unknown_case = refl

abbrev permissions : DespecializedType
permissions = flags ("read" ∷ "write" ∷ "run" ∷ [])

abbrev granted : HostValue sample_host
granted = object (member "run" (boolean true) (member "read" (int (pos 1)) no_members))

abbrev byte_at : ℕ → Result (HostCx sample_host) → ℕ
byte_at i (ok cx) = cx.memory.byte i
byte_at i (err e) = 1000

granted_bits : byte_at 3 (store sample_host permissions start granted 3) ≡ 5
unfolding store_code flags_layout
granted_bits = refl

unaligned :
    store sample_host (prim u32) start (int (pos 1)) 2 ≡ err (assertion_error "store misaligned")
unfolding store_code flags_layout
unaligned = refl

load-store_example :
    Returns
      (Holds sample_host (λ kept. load sample_host reading kept 4) nan_level start 4 12)
      (store sample_host reading start nan_level 4)
load-store_example =
    load-store sample_host reading start nan_level 4 {l = reading_layout} nan_level-Typed
      compute_layout-reading refl (omega arith)

load-store-InPlace_example : InPlace sample_host permissions start 3
unfolding store_code flags_layout
load-store-InPlace_example =
    load-store-InPlace sample_host permissions start granted 3 (inr (_, refl))
