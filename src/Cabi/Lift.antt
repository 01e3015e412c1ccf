-- ===== src/Cabi/Lift.antt =====
-- runtime/src/cabi/lift.ts: core values to component values. A value iterator is a state with its `next`.
use polyengine.Base.{
  ℕ, zero, suc, ◌-◌, ◌%◌, ◌^◌, ◌&&◌, ℤ, pos, negsuc, none, some, List, [], ◌∷◌, String, Result, ok,
  err, error, assertion_error, ◌>>=◌, ◌>>◌, assert, trap_if, ltb, leb, if◌then◌else◌, length,
}
use polyengine.Cabi.Types.{
  CoreType, PrimKind, bool, s8, u8, s16, u16, s32, u32, s64, u64, f32, f64, string,
}
use polyengine.Cabi.Despecialized.{
  DespecializedType, prim, list, record_type, variant, flags, null, type, Fields, no_fields,
  field_then, Cases, no_cases, case_then, case_count,
}
use polyengine.Cabi.Flatten.{core_type, flatten_type}
use polyengine.Cabi.Float.{Floats, canonicalize_nan32, canonicalize_nan64}
use polyengine.Cabi.Lanes.{Lane, next, coerce_lane}
use polyengine.Cabi.Value.{
  Value, no_members, member, no_elements, element, CoreValue, integer, number, Host,
  convert_i32_to_char, unpack_flags_from_int,
}
use polyengine.Cabi.Access.{HostValue, HostMembers, HostCx, case_label, convert_int_to_bool}
use polyengine.Cabi.Bulk.{HostElements}
use polyengine.Cabi.Lists.{load_list_from_range}
use polyengine.Cabi.Store.{load}

module _ (fl : Floats) where
  abbrev pub Core : Type 0
  Core = CoreValue fl.Number

  -- A value of a lane, as the lane's type has it, and back.
  unfoldable pub of_core : (t : CoreType) → Core → Result (Lane fl t)
  of_core CoreType.i32 (integer (pos n)) = ok n
  of_core CoreType.i64 (integer (pos n)) = ok n
  of_core CoreType.f32 (number f) = ok f
  of_core CoreType.f64 (number f) = ok f
  of_core _ _ = err (assertion_error "expected canonical lane value")

  unfoldable pub to_core : (t : CoreType) → Lane fl t → Core
  to_core CoreType.i32 n = integer (pos n)
  to_core CoreType.i64 n = integer (pos n)
  to_core CoreType.f32 f = number f
  to_core CoreType.f64 f = number f

  -- `ValueIter`
  abbrev pub Next : Type 0 → Type 0
  Next I = CoreType → I → Result (Core × I)

  -- `CoreValueIter`
  unfoldable pub core_next : Next (List Core)
  core_next t [] = err (assertion_error "expected canonical lane value")
  core_next t (v ∷ vs) = do x ← of_core t v; y ← next fl t x; ok (to_core t y, vs)

  -- `coerceIter` of `liftFlatVariant`: the lanes of the variant that are left, and the iterator it reads.
  unfoldable pub coerce_next : {I : Type 0} → Next I → Next (List CoreType × I)
  coerce_next next want ([], i) = err (assertion_error "lane mismatch")
  coerce_next next want (have ∷ haves, i) = do
    (v, j) ← next have i
    x ← of_core have v
    y ← coerce_lane fl have want x
    ok (to_core want y, (haves, j))

  -- The lanes that the payload does not use are read and dropped.
  unfoldable pub skip_rest : {I : Type 0} → Next I → List CoreType → I → Result I
  skip_rest next [] i = ok i
  skip_rest next (have ∷ haves) i = do (v, j) ← next have i; skip_rest next haves j

  unfoldable pub natural_of : Core → Result ℕ
  natural_of (integer (pos n)) = ok n
  natural_of v = err (assertion_error "internal assertion failed")

  unfoldable pub number_of : Core → Result fl.Number
  number_of (number f) = ok f
  number_of v = err (assertion_error "expected float lane value")

  unfoldable pub next_natural : {I : Type 0} → Next I → CoreType → I → Result (ℕ × I)
  next_natural next t i = do (v, j) ← next t i; n ← natural_of v; ok (n, j)

  unfoldable pub next_number : {I : Type 0} → Next I → CoreType → I → Result (fl.Number × I)
  next_number next t i = do (v, j) ← next t i; f ← number_of v; ok (f, j)

-- The two's complement reading of `width` bits.
unfoldable pub signed : ℕ → ℕ → ℤ
signed width i = if leb (2 ^ (width - 1)) i then negsuc (2 ^ width - 1 - i) else pos i

-- `assert_(flatTypes.shift() === "i32")`
unfoldable pub shift_i32 : List CoreType → Result (List CoreType)
shift_i32 (CoreType.i32 ∷ ts) = ok ts
shift_i32 ts = err (assertion_error "internal assertion failed")

module _ {fl : Floats} (host : Host fl) where
  abbrev pub Lifted : Type 0 → Type 0
  Lifted I = Result ((HostValue host × I) × HostCx host)

  unfoldable pub lift_flat_unsigned32 : {I : Type 0} → Next fl I → HostCx host → I → ℕ → Lifted I
  lift_flat_unsigned32 next cx i width = do
    (n, j) ← next_natural fl next CoreType.i32 i
    assert (ltb n (2 ^ 32)) "internal assertion failed"
    ok ((Value.int (pos (n % 2 ^ width)), j), cx)

  unfoldable pub lift_flat_unsigned64 : {I : Type 0} → Next fl I → HostCx host → I → Lifted I
  lift_flat_unsigned64 next cx i = do
    (n, j) ← next_natural fl next CoreType.i64 i
    assert (ltb n (2 ^ 64)) "internal assertion failed"
    ok ((Value.int (pos n), j), cx)

  unfoldable pub lift_flat_signed32 : {I : Type 0} → Next fl I → HostCx host → I → ℕ → Lifted I
  lift_flat_signed32 next cx i width = do
    (n, j) ← next_natural fl next CoreType.i32 i
    assert (ltb n (2 ^ 32)) "internal assertion failed"
    ok ((Value.int (signed width (n % 2 ^ width)), j), cx)

  unfoldable pub lift_flat_signed64 : {I : Type 0} → Next fl I → HostCx host → I → Lifted I
  lift_flat_signed64 next cx i = do
    (n, j) ← next_natural fl next CoreType.i64 i
    assert (ltb n (2 ^ 64)) "internal assertion failed"
    ok ((Value.int (signed 64 n), j), cx)

  unfoldable pub lift_flat_bool : {I : Type 0} → Next fl I → HostCx host → I → Lifted I
  lift_flat_bool next cx i = do
    (n, j) ← next_natural fl next CoreType.i32 i
    ok ((Value.boolean (convert_int_to_bool n), j), cx)

  unfoldable pub lift_flat_float :
      {I : Type 0} → Next fl I → HostCx host → I → CoreType → (fl.Number → fl.Number) → Lifted I
  lift_flat_float next cx i t canonicalize = do
    (f, j) ← next_number fl next t i
    ok ((Value.float (canonicalize f), j), cx)

  unfoldable pub lift_flat_char : {I : Type 0} → Next fl I → HostCx host → I → Lifted I
  lift_flat_char next cx i = do
    (n, j) ← next_natural fl next CoreType.i32 i
    c ← convert_i32_to_char n
    ok ((Value.char c, j), cx)

  -- A handle, a stream, a future or an error context is one i32 lane, a string two lanes of pointers.
  unfoldable pub lift_flat_handle :
      {I : Type 0} → Next fl I → DespecializedType → HostCx host → I → Lifted I
  lift_flat_handle next d cx i = do
    (v, j) ← next CoreType.i32 i
    (x, cx') ← host.lift_other d cx (v ∷ [])
    ok ((Value.other x, j), cx')

  unfoldable pub lift_flat_string : {I : Type 0} → Next fl I → HostCx host → I → Lifted I
  lift_flat_string next cx i = do
    (ptr, j) ← next (core_type cx.memory.addr_type) i
    (packed_length, k) ← next (core_type cx.memory.addr_type) j
    (x, cx') ← host.lift_other (prim string) cx (ptr ∷ packed_length ∷ [])
    ok ((Value.other x, k), cx')

  unfoldable pub lift_flat_prim : {I : Type 0} → Next fl I → PrimKind → HostCx host → I → Lifted I
  lift_flat_prim next bool cx i = lift_flat_bool next cx i
  lift_flat_prim next u8 cx i = lift_flat_unsigned32 next cx i 8
  lift_flat_prim next u16 cx i = lift_flat_unsigned32 next cx i 16
  lift_flat_prim next u32 cx i = lift_flat_unsigned32 next cx i 32
  lift_flat_prim next u64 cx i = lift_flat_unsigned64 next cx i
  lift_flat_prim next s8 cx i = lift_flat_signed32 next cx i 8
  lift_flat_prim next s16 cx i = lift_flat_signed32 next cx i 16
  lift_flat_prim next s32 cx i = lift_flat_signed32 next cx i 32
  lift_flat_prim next s64 cx i = lift_flat_signed64 next cx i
  lift_flat_prim next f32 cx i = lift_flat_float next cx i CoreType.f32 (canonicalize_nan32 fl)
  lift_flat_prim next f64 cx i = lift_flat_float next cx i CoreType.f64 (canonicalize_nan64 fl)
  lift_flat_prim next PrimKind.char cx i = lift_flat_char next cx i
  lift_flat_prim next string cx i = lift_flat_string next cx i

  unfoldable pub lift_flat_flags :
      {I : Type 0} → Next fl I → List String → HostCx host → I → Lifted I
  lift_flat_flags next ls cx i = do
    assert (ltb 0 (length ls) && leb (length ls) 32) "internal assertion failed"
    (n, j) ← next_natural fl next CoreType.i32 i
    ok ((Value.object (unpack_flags_from_int host n ls), j), cx)

  -- The loop of `liftFlatList` over a fixed length, with the lift of the elements.
  unfoldable pub lift_flat_elements :
      {I : Type 0}
      → (HostCx host → I → Lifted I)
      → ℕ
      → HostCx host
      → I
      → Result ((HostElements host × I) × HostCx host)
  lift_flat_elements lift zero cx i = ok ((no_elements, i), cx)
  lift_flat_elements lift (suc n) cx i = do
    ((v, j), cx') ← lift cx i
    ((vs, k), cx'') ← lift_flat_elements lift n cx' j
    ok ((element v vs, k), cx'')

  -- A list of any length: its address and number of elements.
  unfoldable pub lift_flat_list :
      {I : Type 0} → Next fl I → DespecializedType → HostCx host → I → Lifted I
  lift_flat_list next t cx i = do
    (ptr, j) ← next_natural fl next (core_type cx.memory.addr_type) i
    (n, k) ← next_natural fl next (core_type cx.memory.addr_type) j
    (v, cx') ← load_list_from_range host (λ c p. load host t c p) t cx ptr n
    ok ((v, k), cx')

  unfoldable mutual
    pub lift_flat : {I : Type 0} → Next fl I → DespecializedType → HostCx host → I → Lifted I
    lift_flat next (prim p) cx i = lift_flat_prim next p cx i
    lift_flat next (list t none) cx i = lift_flat_list next t cx i
    lift_flat next (list t (some n)) cx i = do
      ((vs, j), cx') ← lift_flat_elements (λ cx i. lift_flat next t cx i) n cx i
      ok ((Value.array vs, j), cx')
    lift_flat next (record_type fs) cx i = do
      ((ms, j), cx') ← lift_flat_record next fs cx i
      ok ((Value.object ms, j), cx')
    lift_flat next (variant cs) cx i = do
      flat ← flatten_type (some cx.memory.addr_type) (variant cs)
      haves ← shift_i32 flat
      (n, j) ← next_natural fl next CoreType.i32 i
      trap_if (leb (case_count cs) n) "discriminant out of range"
      ((v, rest), cx') ← lift_flat_payload (coerce_next fl next) cs n cx (haves, j)
      k ← skip_rest fl next rest.0 rest.1
      ok ((Value.case_of (case_label cs n) v, k), cx')
    lift_flat next (flags ls) cx i = lift_flat_flags next ls cx i
    lift_flat next d cx i = lift_flat_handle next d cx i

    pub lift_flat_record :
        {I : Type 0}
        → Next fl I
        → Fields
        → HostCx host
        → I
        → Result ((HostMembers host × I) × HostCx host)
    lift_flat_record next no_fields cx i = ok ((no_members, i), cx)
    lift_flat_record next (field_then l t fs) cx i = do
      ((v, j), cx') ← lift_flat next t cx i
      ((ms, k), cx'') ← lift_flat_record next fs cx' j
      ok ((member l v ms, k), cx'')

    pub lift_flat_payload : {I : Type 0} → Next fl I → Cases → ℕ → HostCx host → I → Lifted I
    lift_flat_payload next no_cases n cx i = err (error "no such case")
    lift_flat_payload next (case_then l null cs) zero cx i = ok ((Value.null, i), cx)
    lift_flat_payload next (case_then l (type t) cs) zero cx i = lift_flat next t cx i
    lift_flat_payload next (case_then l null cs) (suc n) cx i = lift_flat_payload next cs n cx i
    lift_flat_payload next (case_then l (type t) cs) (suc n) cx i = lift_flat_payload next cs n cx i
