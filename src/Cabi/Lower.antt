-- ===== src/Cabi/Lower.antt =====
-- runtime/src/cabi/lower.ts: component values to core values.
pub mod Reads
pub mod Scalars
pub mod Parts
pub mod RoundTrip
mod Tests
use polyengine.Base.{
  ℕ, zero, suc, ◌+◌, ◌-◌, ◌^◌, ◌&&◌, ◌==◌, ℤ, pos, negsuc, Option, none, some, List, [], ◌∷◌, ◌++◌,
  String, Result, ok, err, error, assertion_error, ◌>>=◌, ◌>>◌, assert, ltb, leb, if◌then◌else◌,
  length,
}
use polyengine.Cabi.Types.{
  CoreType, PrimKind, bool, s8, u8, s16, u16, s32, u32, s64, u64, f32, f64, string,
}
use polyengine.Cabi.Despecialized.{
  DespecializedType, prim, error_context, list, record_type, variant, flags, own, borrow, stream,
  future, Payload, null, type, Fields, no_fields, field_then, Cases, no_cases, case_then,
}
use polyengine.Cabi.Flatten.{flatten_type}
use polyengine.Cabi.Float.{Floats, canonicalize_nan32, canonicalize_nan64}
use polyengine.Cabi.Lanes.{Lanes, lower_lanes, pad}
use polyengine.Cabi.Value.{
  Value, element_count, no_elements, element, CoreValue, integer, number, Host, member_of,
  char_to_i32, flag_bit, pack_flags_into_int,
}
use polyengine.Cabi.Access.{
  HostValue, HostMembers, HostCx, match_case, label_of, payload_of, members_of,
}
use polyengine.Cabi.Bulk.{HostElements}
use polyengine.Cabi.Lists.{store_list_into_range, elements_of}
use polyengine.Cabi.Lift.{Core, of_core, to_core, shift_i32}
use polyengine.Cabi.Store.{store}

module _ (fl : Floats) where
  unfoldable pub to_cores : (ts : List CoreType) → Lanes fl ts → List (Core fl)
  to_cores [] vs = []
  to_cores (t ∷ ts) vs = to_core fl t vs.0 ∷ to_cores ts vs.1

  unfoldable pub of_cores : (ts : List CoreType) → List (Core fl) → Result (Lanes fl ts)
  of_cores [] vs = ok tt
  of_cores (t ∷ ts) [] = err (assertion_error "lane mismatch")
  of_cores (t ∷ ts) (v ∷ vs) = do x ← of_core fl t v; xs ← of_cores ts vs; ok (x, xs)

-- A negative integer and `2 ^ width`.
unfoldable pub unsigned : ℕ → ℤ → ℤ
unsigned width (pos n) = pos n
unsigned width (negsuc n) =
    if ltb n (2 ^ width) then pos (2 ^ width - 1 - n) else negsuc (n - 2 ^ width)

module _ {fl : Floats} (host : Host fl) where
  abbrev pub Lowered : Type 0
  Lowered = Result (List (Core fl) × HostCx host)

  unfoldable pub lower_flat_bool : HostCx host → HostValue host → Lowered
  lower_flat_bool cx (Value.boolean b) = ok (integer (pos (flag_bit b)) ∷ [], cx)
  lower_flat_bool cx v = err (error "not a boolean")

  unfoldable pub lower_flat_integer : HostCx host → HostValue host → (ℤ → ℤ) → Lowered
  lower_flat_integer cx (Value.int z) to_unsigned = ok (integer (to_unsigned z) ∷ [], cx)
  lower_flat_integer cx v to_unsigned = err (error "not an integer")

  unfoldable pub lower_flat_float : HostCx host → HostValue host → (fl.Number → fl.Number) → Lowered
  lower_flat_float cx (Value.float f) scramble = ok (number (scramble f) ∷ [], cx)
  lower_flat_float cx v scramble = err (error "not a number")

  unfoldable pub lower_flat_char : HostCx host → HostValue host → Lowered
  lower_flat_char cx (Value.char c) = do i ← char_to_i32 c; ok (integer (pos i) ∷ [], cx)
  lower_flat_char cx v = err (error "not a string")

  -- `maybeScrambleNan32` and `maybeScrambleNan64` put the canonical NaN.
  unfoldable pub lower_flat_prim : PrimKind → HostCx host → HostValue host → Lowered
  lower_flat_prim bool cx v = lower_flat_bool cx v
  lower_flat_prim u8 cx v = lower_flat_integer cx v (λ z. z)
  lower_flat_prim u16 cx v = lower_flat_integer cx v (λ z. z)
  lower_flat_prim u32 cx v = lower_flat_integer cx v (λ z. z)
  lower_flat_prim u64 cx v = lower_flat_integer cx v (λ z. z)
  lower_flat_prim s8 cx v = lower_flat_integer cx v (unsigned 32)
  lower_flat_prim s16 cx v = lower_flat_integer cx v (unsigned 32)
  lower_flat_prim s32 cx v = lower_flat_integer cx v (unsigned 32)
  lower_flat_prim s64 cx v = lower_flat_integer cx v (unsigned 64)
  lower_flat_prim f32 cx v = lower_flat_float cx v (canonicalize_nan32 fl)
  lower_flat_prim f64 cx v = lower_flat_float cx v (canonicalize_nan64 fl)
  lower_flat_prim PrimKind.char cx v = lower_flat_char cx v
  lower_flat_prim string cx v = host.lower_other (prim string) cx v

  unfoldable pub lower_flat_flags : HostCx host → HostValue host → List String → Lowered
  lower_flat_flags cx v ls = do
    assert (ltb 0 (length ls) && leb (length ls) 32) "internal assertion failed"
    ms ← members_of host v
    ok (integer (pos (pack_flags_into_int host ms ls)) ∷ [], cx)

  -- The loop of `lowerFlatList` over the elements, with their lowering.
  unfoldable pub lower_flat_elements :
      (HostCx host → HostValue host → Lowered) → HostCx host → HostElements host → Lowered
  lower_flat_elements lower cx no_elements = ok ([], cx)
  lower_flat_elements lower cx (element v vs) = do
    (flat, cx') ← lower cx v
    (rest, cx'') ← lower_flat_elements lower cx' vs
    ok (flat ++ rest, cx'')

  -- A list of any length: its address and number of elements.
  unfoldable pub lower_flat_list : DespecializedType → HostCx host → HostElements host → Lowered
  lower_flat_list t cx vs = do
    ((ptr, n), cx') ← store_list_into_range host (λ c v p. store host t c v p) t cx vs
    ok (integer (pos ptr) ∷ integer (pos n) ∷ [], cx')

  -- The lanes of a payload as the lanes of its variant, which are filled with zeros.
  unfoldable pub lower_into :
      List CoreType → DespecializedType → List (Core fl) × HostCx host → Lowered
  lower_into wants t (payload, cx) = do
    haves ← flatten_type (some cx.memory.addr_type) t
    vs ← of_cores fl haves payload
    ws ← lower_lanes fl fl.nought haves wants vs
    ok (to_cores fl wants ws, cx)

  unfoldable mutual
    pub lower_flat : DespecializedType → HostCx host → HostValue host → Lowered
    lower_flat (prim p) cx v = lower_flat_prim p cx v
    lower_flat (list t none) cx v = do vs ← elements_of host v; lower_flat_list t cx vs
    lower_flat (list t (some n)) cx v = do
      vs ← elements_of host v
      assert (n == element_count vs) "fixed-length list length mismatch"
      lower_flat_elements (λ cx v. lower_flat t cx v) cx vs
    lower_flat (record_type fs) cx v = do ms ← members_of host v; lower_flat_record fs cx ms
    lower_flat (variant cs) cx v = do
      label ← label_of host v
      i ← match_case label cs
      flat ← flatten_type (some cx.memory.addr_type) (variant cs)
      wants ← shift_i32 flat
      (payload, cx') ← lower_flat_payload cs i cx (payload_of host v) wants
      ok (integer (pos i) ∷ payload, cx')
    lower_flat (flags ls) cx v = lower_flat_flags cx v ls
    lower_flat d cx v = host.lower_other d cx v

    pub lower_flat_record : Fields → HostCx host → HostMembers host → Lowered
    lower_flat_record no_fields cx ms = ok ([], cx)
    lower_flat_record (field_then l t fs) cx ms = do
      (flat, cx') ← lower_flat t cx (member_of l ms)
      (rest, cx'') ← lower_flat_record fs cx' ms
      ok (flat ++ rest, cx'')

    -- The payload of the case with an index, in the lanes of its variant.
    pub lower_flat_payload : Cases → ℕ → HostCx host → HostValue host → List CoreType → Lowered
    lower_flat_payload no_cases i cx v wants = err (error "no such case")
    lower_flat_payload (case_then l null cs) zero cx v wants =
        ok (to_cores fl wants (pad fl fl.nought wants), cx)
    lower_flat_payload (case_then l (type t) cs) zero cx v wants = do
      r ← lower_flat t cx v
      lower_into wants t r
    lower_flat_payload (case_then l null cs) (suc i) cx v wants = lower_flat_payload cs i cx v wants
    lower_flat_payload (case_then l (type t) cs) (suc i) cx v wants =
        lower_flat_payload cs i cx v wants
