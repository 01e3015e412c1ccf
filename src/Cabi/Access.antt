-- ===== src/Cabi/Access.antt =====
-- runtime/src/cabi/store.ts and load.ts: the checks at an address, and the values without parts.
use text.Mathlib.Text.{◌==◌ as str_eq}
use polyengine.Base.{
  ℕ, zero, suc, ◌+◌, ◌%◌, ℤ, pos, Bool, true, false, List, String, Result, ok, err, error,
  assertion_error, ◌>>=◌, ◌>>◌, assert, leb, ◌==◌, if◌then◌else◌, length,
}
use polyengine.Cabi.Types.{PrimKind, bool, s8, u8, s16, u16, s32, u32, s64, u64, f32, f64, string}
use polyengine.Cabi.Despecialized.{DespecializedType, prim, Cases, no_cases, case_then}
use polyengine.Cabi.Layout.{Layout, compute_layout, elem_size_flags}
use polyengine.Cabi.Memory.{load_int_u, load_int_s, store_int}
use polyengine.Cabi.Float.{
  Floats, decode_i32_as_float, decode_i64_as_float, encode_float_as_i32, encode_float_as_i64,
}
use polyengine.Cabi.Value.{
  Value, Members, Cx, Host, convert_i32_to_char, char_to_i32, truthy, flag_bit, pack_flags_into_int,
  unpack_flags_from_int,
}

-- How many cases have the label, and the index of the first one.
unfoldable pub label_count : String → Cases → ℕ
label_count l no_cases = 0
label_count l (case_then m p cs) = if str_eq m l then suc (label_count l cs) else label_count l cs

unfoldable pub first_index : String → Cases → ℕ
first_index l no_cases = 0
first_index l (case_then m p cs) = if str_eq m l then 0 else suc (first_index l cs)

-- `caseIndexOf` has an index for a label that one case has.
unfoldable pub match_case : String → Cases → Result ℕ
match_case l cs = do assert (label_count l cs == 1) "variant case not found"; ok (first_index l cs)

unfoldable pub case_label : Cases → ℕ → String
case_label no_cases i = ""
case_label (case_then l p cs) zero = l
case_label (case_then l p cs) (suc i) = case_label cs i

unfoldable pub convert_int_to_bool : ℕ → Bool
convert_int_to_bool zero = false
convert_int_to_bool (suc i) = true

module _ {fl : Floats} (host : Host fl) where
  abbrev pub HostValue : Type 0
  HostValue = Value fl.Number host.Other

  abbrev pub HostMembers : Type 0
  HostMembers = Members fl.Number host.Other

  abbrev pub HostCx : Type 0
  HostCx = Cx host.State

  -- The layout of a type, with the checks that `load` and `store` make at an address.
  unfoldable pub place : String → String → DespecializedType → HostCx → ℕ → Result Layout
  place misaligned outside d cx ptr = do
    l ← compute_layout cx.memory.addr_type d
    assert (ptr % l.align == 0) misaligned
    assert (leb (ptr + l.size) cx.memory.length) outside
    ok l

  unfoldable pub store_word : HostCx → ℤ → ℕ → ℕ → Bool → Result HostCx
  store_word cx v ptr nbytes signed = do
    memory ← store_int cx.memory v ptr nbytes signed
    ok (record cx { memory = memory })

  unfoldable pub store_number : HostCx → HostValue → ℕ → ℕ → Bool → Result HostCx
  store_number cx (Value.int v) ptr nbytes signed = store_word cx v ptr nbytes signed
  store_number cx v ptr nbytes signed =
      err (assertion_error (if nbytes == 8 then "64-bit store requires bigint" else "int store"))

  unfoldable pub store_float : HostCx → HostValue → ℕ → ℕ → (fl.Number → ℕ) → Result HostCx
  store_float cx (Value.float f) ptr nbytes encode = store_word cx (pos (encode f)) ptr nbytes false
  store_float cx v ptr nbytes encode = err (error "not a number")

  unfoldable pub store_char : HostCx → HostValue → ℕ → Result HostCx
  store_char cx (Value.char c) ptr = do i ← char_to_i32 c; store_word cx (pos i) ptr 4 false
  store_char cx v ptr = err (error "not a string")

  unfoldable pub store_prim : PrimKind → HostCx → HostValue → ℕ → Result HostCx
  store_prim bool cx v ptr = store_word cx (pos (flag_bit (truthy host v))) ptr 1 false
  store_prim u8 cx v ptr = store_number cx v ptr 1 false
  store_prim u16 cx v ptr = store_number cx v ptr 2 false
  store_prim u32 cx v ptr = store_number cx v ptr 4 false
  store_prim u64 cx v ptr = store_number cx v ptr 8 false
  store_prim s8 cx v ptr = store_number cx v ptr 1 true
  store_prim s16 cx v ptr = store_number cx v ptr 2 true
  store_prim s32 cx v ptr = store_number cx v ptr 4 true
  store_prim s64 cx v ptr = store_number cx v ptr 8 true
  store_prim f32 cx v ptr = store_float cx v ptr 4 (encode_float_as_i32 fl)
  store_prim f64 cx v ptr = store_float cx v ptr 8 (encode_float_as_i64 fl)
  store_prim PrimKind.char cx v ptr = store_char cx v ptr
  store_prim string cx v ptr = host.store_other (prim string) cx v ptr

  unfoldable pub store_flags : HostCx → HostValue → ℕ → List String → Result HostCx
  store_flags cx (Value.object ms) ptr ls = do
    nbytes ← elem_size_flags (length ls)
    store_word cx (pos (pack_flags_into_int host ms ls)) ptr nbytes false
  store_flags cx v ptr ls = err (error "not an object")

  unfoldable pub label_of : HostValue → Result String
  label_of (Value.case_of l v) = ok l
  label_of v = err (error "not a variant value")

  unfoldable pub payload_of : HostValue → HostValue
  payload_of (Value.case_of l v) = v
  payload_of v = Value.undefined

  unfoldable pub members_of : HostValue → Result HostMembers
  members_of (Value.object ms) = ok ms
  members_of v = err (error "not an object")

  unfoldable pub load_unsigned : HostCx → ℕ → ℕ → Result (HostValue × HostCx)
  load_unsigned cx ptr nbytes = do w ← load_int_u cx.memory ptr nbytes; ok (Value.int (pos w), cx)

  unfoldable pub load_signed : HostCx → ℕ → ℕ → Result (HostValue × HostCx)
  load_signed cx ptr nbytes = do v ← load_int_s cx.memory ptr nbytes; ok (Value.int v, cx)

  unfoldable pub load_float : HostCx → ℕ → ℕ → (ℕ → fl.Number) → Result (HostValue × HostCx)
  load_float cx ptr nbytes decode = do
    w ← load_int_u cx.memory ptr nbytes
    ok (Value.float (decode w), cx)

  unfoldable pub load_bool : HostCx → ℕ → Result (HostValue × HostCx)
  load_bool cx ptr = do
    w ← load_int_u cx.memory ptr 1
    ok (Value.boolean (convert_int_to_bool w), cx)

  unfoldable pub load_char : HostCx → ℕ → Result (HostValue × HostCx)
  load_char cx ptr = do
    w ← load_int_u cx.memory ptr 4
    c ← convert_i32_to_char w
    ok (Value.char c, cx)

  unfoldable pub load_host : DespecializedType → HostCx → ℕ → Result (HostValue × HostCx)
  load_host d cx ptr = do (x, cx') ← host.load_other d cx ptr; ok (Value.other x, cx')

  unfoldable pub load_prim : PrimKind → HostCx → ℕ → Result (HostValue × HostCx)
  load_prim bool cx ptr = load_bool cx ptr
  load_prim u8 cx ptr = load_unsigned cx ptr 1
  load_prim u16 cx ptr = load_unsigned cx ptr 2
  load_prim u32 cx ptr = load_unsigned cx ptr 4
  load_prim u64 cx ptr = load_unsigned cx ptr 8
  load_prim s8 cx ptr = load_signed cx ptr 1
  load_prim s16 cx ptr = load_signed cx ptr 2
  load_prim s32 cx ptr = load_signed cx ptr 4
  load_prim s64 cx ptr = load_signed cx ptr 8
  load_prim f32 cx ptr = load_float cx ptr 4 (decode_i32_as_float fl)
  load_prim f64 cx ptr = load_float cx ptr 8 (decode_i64_as_float fl)
  load_prim PrimKind.char cx ptr = load_char cx ptr
  load_prim string cx ptr = load_host (prim string) cx ptr

  unfoldable pub load_flags : HostCx → ℕ → List String → Result (HostValue × HostCx)
  load_flags cx ptr ls = do
    nbytes ← elem_size_flags (length ls)
    w ← load_int_u cx.memory ptr nbytes
    ok (Value.object (unpack_flags_from_int host w ls), cx)
