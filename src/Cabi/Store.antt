-- ===== src/Cabi/Store.antt =====
-- runtime/src/cabi/store.ts and load.ts: values of any type in linear memory, by its layout. Lists,
-- strings, handles, streams, futures and error contexts are the host's operations.
pub mod Typing
pub mod Scalars
pub mod Places
pub mod Arrays
pub mod BulkLoad
pub mod BulkStore
pub mod BulkKinds
pub mod ListValues
pub mod Bounds
pub mod Ranges
pub mod GuestLists
pub mod Record
pub mod Variant
pub mod RoundTrip
mod ListTests
pub mod Tests
use text.Mathlib.Text.{◌==◌ as str_eq}
use polyengine.Base.{
  ℕ, zero, suc, ◌+◌, ◌%◌, ℤ, pos, Bool, true, false, Option, none, some, List, [], ◌∷◌, String,
  Result, ok, err, error, assertion_error, ◌>>=◌, ◌>>◌, assert, trap_if, ltb, leb, ◌==◌,
  if◌then◌else◌, length,
}
use polyengine.Cabi.Types.{PrimKind, bool, s8, u8, s16, u16, s32, u32, s64, u64, f32, f64, string}
use polyengine.Cabi.Despecialized.{
  DespecializedType, prim, error_context, list, record_type, variant, flags, own, borrow, stream,
  future, Payload, null, type, Fields, no_fields, field_then, Cases, no_cases, case_then,
  case_count,
}
use polyengine.Cabi.Layout.{Layout, compute_layout, elem_size_flags}
use polyengine.Cabi.Memory.{Memory, load_int_u, load_int_s, store_int}
use polyengine.Cabi.Float.{
  Floats, decode_i32_as_float, decode_i64_as_float, encode_float_as_i32, encode_float_as_i64,
}
use polyengine.Cabi.Access.{
  label_count, first_index, match_case, case_label, convert_int_to_bool, HostValue, HostMembers,
  HostCx, place, store_word, store_number, store_float, store_char, store_prim, store_flags,
  label_of, payload_of, members_of, load_unsigned, load_signed, load_float, load_bool, load_char,
  load_host, load_prim, load_flags,
}
use polyengine.Cabi.Lists.{store_list, load_list}
use polyengine.Cabi.Value.{
  Value, Members, no_members, member, Cx, Host, member_of, convert_i32_to_char, char_to_i32, truthy,
  flag_bit, pack_flags_into_int, unpack_flags_from_int,
}

module _ {fl : Floats} (host : Host fl) where
  mutual
    pub store : DespecializedType → HostCx host → HostValue host → ℕ → Result (HostCx host)
    store (prim p) cx v ptr = do
      l ← place host "store misaligned" "store OOB" (prim p) cx ptr
      store_prim host p cx v ptr
    store (record_type fs) cx v ptr = do
      l ← place host "store misaligned" "store OOB" (record_type fs) cx ptr
      ms ← members_of host v
      store_record fs l.field_offsets cx ms ptr
    store (variant cs) cx v ptr = do
      l ← place host "store misaligned" "store OOB" (variant cs) cx ptr
      label ← label_of host v
      i ← match_case label cs
      cx' ← store_word host cx (pos i) ptr l.disc_size false
      store_payload cs i cx' (payload_of host v) (ptr + l.payload_offset)
    store (flags ls) cx v ptr = do
      l ← place host "store misaligned" "store OOB" (flags ls) cx ptr
      store_flags host cx v ptr ls
    store (list t n) cx v ptr = do
      l ← place host "store misaligned" "store OOB" (list t n) cx ptr
      store_list host (λ cx v ptr. store t cx v ptr) t n cx v ptr
    store d cx v ptr = do
      l ← place host "store misaligned" "store OOB" d cx ptr
      host.store_other d cx v ptr

    pub store_record :
        Fields → Option (List ℕ) → HostCx host → HostMembers host → ℕ → Result (HostCx host)
    store_record no_fields offsets cx ms ptr = ok cx
    store_record (field_then l t fs) (some (o ∷ os)) cx ms ptr = do
      cx' ← store t cx (member_of l ms) (ptr + o)
      store_record fs (some os) cx' ms ptr
    store_record (field_then l t fs) offsets cx ms ptr = err (error "no field offset")

    -- The payload of the case with an index.
    pub store_payload : Cases → ℕ → HostCx host → HostValue host → ℕ → Result (HostCx host)
    store_payload no_cases i cx v ptr = err (error "no such case")
    store_payload (case_then l null cs) zero cx v ptr = ok cx
    store_payload (case_then l (type t) cs) zero cx v ptr = store t cx v ptr
    store_payload (case_then l null cs) (suc i) cx v ptr = store_payload cs i cx v ptr
    store_payload (case_then l (type t) cs) (suc i) cx v ptr = store_payload cs i cx v ptr

  mutual
    pub load : DespecializedType → HostCx host → ℕ → Result (HostValue host × HostCx host)
    load (prim p) cx ptr = do
      l ← place host "load misaligned" "load OOB" (prim p) cx ptr
      load_prim host p cx ptr
    load (record_type fs) cx ptr = do
      l ← place host "load misaligned" "load OOB" (record_type fs) cx ptr
      (ms, cx') ← load_record fs l.field_offsets cx ptr
      ok (Value.object ms, cx')
    load (variant cs) cx ptr = do
      l ← place host "load misaligned" "load OOB" (variant cs) cx ptr
      i ← load_int_u cx.memory ptr l.disc_size
      trap_if (leb (case_count cs) i) "discriminant out of range"
      (v, cx') ← load_payload cs i cx (ptr + l.payload_offset)
      ok (Value.case_of (case_label cs i) v, cx')
    load (flags ls) cx ptr = do
      l ← place host "load misaligned" "load OOB" (flags ls) cx ptr
      load_flags host cx ptr ls
    load (list t n) cx ptr = do
      l ← place host "load misaligned" "load OOB" (list t n) cx ptr
      load_list host (λ cx ptr. load t cx ptr) t n cx ptr
    load d cx ptr = do l ← place host "load misaligned" "load OOB" d cx ptr; load_host host d cx ptr

    pub load_record :
        Fields → Option (List ℕ) → HostCx host → ℕ → Result (HostMembers host × HostCx host)
    load_record no_fields offsets cx ptr = ok (no_members, cx)
    load_record (field_then l t fs) (some (o ∷ os)) cx ptr = do
      (v, cx') ← load t cx (ptr + o)
      (ms, cx'') ← load_record fs (some os) cx' ptr
      ok (member l v ms, cx'')
    load_record (field_then l t fs) offsets cx ptr = err (error "no field offset")

    pub load_payload : Cases → ℕ → HostCx host → ℕ → Result (HostValue host × HostCx host)
    load_payload no_cases i cx ptr = err (error "no such case")
    load_payload (case_then l null cs) zero cx ptr = ok (Value.null, cx)
    load_payload (case_then l (type t) cs) zero cx ptr = load t cx ptr
    load_payload (case_then l null cs) (suc i) cx ptr = load_payload cs i cx ptr
    load_payload (case_then l (type t) cs) (suc i) cx ptr = load_payload cs i cx ptr
