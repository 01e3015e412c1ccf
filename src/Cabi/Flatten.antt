-- ===== src/Cabi/Flatten.antt =====
-- runtime/src/cabi/flatten.ts: component types as sequences of core types. Of the options the code
-- reads the memory, for its pointer type, `async_`, and whether there is a callback.
pub mod Join
pub mod Variant
pub mod Functype
mod Tests
use polyengine.Base.{
  ℕ, zero, suc, Bool, true, false, Option, none, some, List, [], ◌∷◌, ◌++◌, Result, ok, err, ◌>>=◌,
  assertion_error, ltb, ◌==◌, if◌then◌else◌, length,
}
use polyengine.Cabi.Types.{
  PtrType, CoreType, i32, i64, f32, f64, PrimKind, bool, s8, u8, s16, u16, s32, u32, s64, u64, char,
  string,
}
use polyengine.Cabi.Despecialized.{
  DespecializedType, prim, error_context, list, record_type, variant, flags, own, borrow, stream,
  future, null, type, Fields, no_fields, field_then, Cases, no_cases, case_then, case_count,
  discriminant_size,
}

abbrev pub core_type : PtrType → CoreType
core_type PtrType.i32 = CoreType.i32
core_type PtrType.i64 = CoreType.i64

-- The pointer type of the memory option.
abbrev pub require_memory : Option PtrType → Result CoreType
require_memory none = err (assertion_error "canonical option `memory` required")
require_memory (some ptr) = ok (core_type ptr)

pub join : CoreType → CoreType → CoreType
join CoreType.i32 CoreType.i32 = CoreType.i32
join CoreType.i64 CoreType.i64 = CoreType.i64
join CoreType.f32 CoreType.f32 = CoreType.f32
join CoreType.f64 CoreType.f64 = CoreType.f64
join CoreType.i32 CoreType.f32 = CoreType.i32
join CoreType.f32 CoreType.i32 = CoreType.i32
join _ _ = CoreType.i64

-- The loop of `flattenVariant` over the flat types of one payload.
unfoldable pub join_lanes : List CoreType → List CoreType → List CoreType
join_lanes [] ys = ys
join_lanes (x ∷ xs) [] = x ∷ xs
join_lanes (x ∷ xs) (y ∷ ys) = join x y ∷ join_lanes xs ys

-- The loop of `flattenList` over a fixed length.
unfoldable pub repeat : ℕ → List CoreType → List CoreType
repeat zero one = []
repeat (suc n) one = one ++ repeat n one

unfoldable pub discriminant_type : ℕ → Result PrimKind
discriminant_type n = do
  size ← discriminant_size n
  ok (if size == 1 then u8 else if size == 2 then u16 else u32)

unfoldable pub flatten_prim : Option PtrType → PrimKind → Result (List CoreType)
flatten_prim memory s64 = ok (CoreType.i64 ∷ [])
flatten_prim memory u64 = ok (CoreType.i64 ∷ [])
flatten_prim memory PrimKind.f32 = ok (CoreType.f32 ∷ [])
flatten_prim memory PrimKind.f64 = ok (CoreType.f64 ∷ [])
flatten_prim memory string = do ptr ← require_memory memory; ok (ptr ∷ ptr ∷ [])
flatten_prim memory _ = ok (CoreType.i32 ∷ [])

unfoldable mutual
  pub flatten_type : Option PtrType → DespecializedType → Result (List CoreType)
  flatten_type memory (prim p) = flatten_prim memory p
  flatten_type memory error_context = ok (CoreType.i32 ∷ [])
  flatten_type memory (list t none) = do ptr ← require_memory memory; ok (ptr ∷ ptr ∷ [])
  flatten_type memory (list t (some n)) = do one ← flatten_type memory t; ok (repeat n one)
  flatten_type memory (record_type fs) = flatten_record memory fs
  flatten_type memory (variant cs) = do
    flat ← flatten_cases memory cs []
    kind ← discriminant_type (case_count cs)
    discriminant ← flatten_prim memory kind
    ok (discriminant ++ flat)
  flatten_type memory (flags ls) = ok (CoreType.i32 ∷ [])
  flatten_type memory (own r) = ok (CoreType.i32 ∷ [])
  flatten_type memory (borrow r) = ok (CoreType.i32 ∷ [])
  flatten_type memory (stream t) = ok (CoreType.i32 ∷ [])
  flatten_type memory (future t) = ok (CoreType.i32 ∷ [])

  pub flatten_record : Option PtrType → Fields → Result (List CoreType)
  flatten_record memory no_fields = ok []
  flatten_record memory (field_then l t fs) = do
    first ← flatten_type memory t
    rest ← flatten_record memory fs
    ok (first ++ rest)

  -- The loop of `flattenVariant` over the cases.
  pub flatten_cases : Option PtrType → Cases → List CoreType → Result (List CoreType)
  flatten_cases memory no_cases flat = ok flat
  flatten_cases memory (case_then l null cs) flat = flatten_cases memory cs flat
  flatten_cases memory (case_then l (type t) cs) flat = do
    payload ← flatten_type memory t
    flatten_cases memory cs (join_lanes flat payload)

unfoldable pub flatten_types : Option PtrType → List DespecializedType → Result (List CoreType)
flatten_types memory [] = ok []
flatten_types memory (t ∷ ts) = do
  first ← flatten_type memory t
  rest ← flatten_types memory ts
  ok (first ++ rest)

-- The memo table of `flatCount` holds this value.
unfoldable pub flat_count : Option PtrType → List DespecializedType → Result ℕ
flat_count memory ts = do flat ← flatten_types memory ts; ok (length flat)

abbrev pub max_flat_params : ℕ
max_flat_params = 16

abbrev pub max_flat_async_params : ℕ
max_flat_async_params = 4

abbrev pub max_flat_results : ℕ
max_flat_results = 1

pub data FlattenContext : Type 0 where
  lift lower : FlattenContext

pub record CoreFuncType : Type 0 where
  pub params : List CoreType
  pub results : List CoreType

pub record FuncType : Type 0 where
  pub params : List DespecializedType
  pub results : List DespecializedType

pub record FlattenOptions : Type 0 where
  pub memory : Option PtrType
  pub is_async : Bool
  pub has_callback : Bool

-- `limit` lanes at most stay flat; more are passed behind one pointer.
pub spill_params : Option PtrType → ℕ → List CoreType → Result (List CoreType)
spill_params memory limit flat_params =
    if ltb limit (length flat_params)
    then (do ptr ← require_memory memory; ok (ptr ∷ []))
    else ok flat_params

pub spill_results :
    Option PtrType → FlattenContext → List CoreType → List CoreType → Result CoreFuncType
spill_results memory context flat_params flat_results =
    if ltb max_flat_results (length flat_results)
    then (do
      ptr ← require_memory memory
      ok (elim context [
        | lift ↦ record { params = flat_params; results = ptr ∷ [] }
        | lower ↦ record { params = flat_params ++ ptr ∷ []; results = [] }
      ]))
    else ok (record { params = flat_params; results = flat_results })

-- The out pointer of an asynchronous lowered call with results.
pub out_param : Option PtrType → List CoreType → List CoreType → Result (List CoreType)
out_param memory flat_params flat_results =
    if ltb 0 (length flat_results)
    then (do ptr ← require_memory memory; ok (flat_params ++ ptr ∷ []))
    else ok flat_params

pub flatten_async :
    FlattenOptions → FlattenContext → List CoreType → List CoreType → Result CoreFuncType
flatten_async opts lift flat_params flat_results = do
  params ← spill_params opts.memory max_flat_params flat_params
  ok (record { params = params; results = if opts.has_callback then CoreType.i32 ∷ [] else [] })
flatten_async opts lower flat_params flat_results = do
  spilled ← spill_params opts.memory max_flat_async_params flat_params
  params ← out_param opts.memory spilled flat_results
  ok (record { params = params; results = CoreType.i32 ∷ [] })

pub flatten_functype : FlattenOptions → FuncType → FlattenContext → Result CoreFuncType
flatten_functype opts ft context = do
  flat_params ← flatten_types opts.memory ft.params
  flat_results ← flatten_types opts.memory ft.results
  if opts.is_async then flatten_async opts context flat_params flat_results else do
    params ← spill_params opts.memory max_flat_params flat_params
    spill_results opts.memory context params flat_results
