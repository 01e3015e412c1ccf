-- ===== src/Cabi/Flatten/Functype.antt =====
-- The core signature of a component function keeps within the limits of the canonical ABI, and is
-- there for every function type over a memory.
use polyengine.Base.{
  ℕ, ◌+◌, ◌≤◌, ◌<◌, ◌≡◌, ap, Bool, true, false, Option, List, ok, ◌>>=◌, >>=-eq-ok, arith,
  if◌then◌else◌, length, length-append,
}
use polyengine.Cabi.Types.{PtrType, CoreType}
use polyengine.Cabi.Flatten.{
  FlattenOptions, FlattenContext, lift, lower, FuncType, CoreFuncType, flatten_types, spill_params,
  spill_results, out_param, flatten_async, flatten_functype, max_flat_params, max_flat_async_params,
}

spill_params-le :
    (memory : Option PtrType) (limit : ℕ) (flat : List CoreType) {params : List CoreType}
    → 0 < limit
    → spill_params memory limit flat ≡ ok params
    → length params ≤ limit
unfolding spill_params
spill_params-le memory limit flat h e = ground arith

spill_results-le :
    (memory : Option PtrType) (context : FlattenContext) (params results : List CoreType)
    {signature : CoreFuncType}
    → spill_results memory context params results ≡ ok signature
    → (length signature.params ≤ length params + 1) × (length signature.results ≤ 1)
unfolding spill_results
spill_results-le memory context params results e = grind (arith, length-append)

spill_results-lift :
    (memory : Option PtrType) (params results : List CoreType) {signature : CoreFuncType}
    → spill_results memory lift params results ≡ ok signature
    → signature.params ≡ params
unfolding spill_results
spill_results-lift memory params results e = ground arith

out_param-le :
    (memory : Option PtrType) (flat results : List CoreType) {params : List CoreType}
    → out_param memory flat results ≡ ok params
    → length params ≤ length flat + 1
unfolding out_param
out_param-le memory flat results e = grind (arith, length-append)

-- The most parameters that a core signature may have.
pub param_limit : Bool → FlattenContext → ℕ
param_limit is_async lift = max_flat_params
param_limit false lower = max_flat_params + 1
param_limit true lower = max_flat_async_params + 1

abbrev WithinLimits : Bool → FlattenContext → CoreFuncType → Type 0
WithinLimits is_async context signature =
    (length signature.params ≤ param_limit is_async context) × (length signature.results ≤ 1)

sync_limits :
    (memory : Option PtrType) (context : FlattenContext) (params results : List CoreType)
    {signature : CoreFuncType}
    → (spill_params memory max_flat_params params >>= λ spilled.
        spill_results memory context spilled results)
      ≡ ok signature
    → WithinLimits false context signature
unfolding param_limit
sync_limits memory lift params results e =
    let (spilled, p, r) = >>=-eq-ok (spill_params memory max_flat_params params) _ e in
    omega (
      arith,
      spill_params-le memory max_flat_params params (omega arith) p,
      ap length (spill_results-lift memory spilled results r),
      spill_results-le memory lift spilled results r,
    )
sync_limits memory lower params results e =
    let (spilled, p, r) = >>=-eq-ok (spill_params memory max_flat_params params) _ e in
    omega (
      arith,
      spill_params-le memory max_flat_params params (omega arith) p,
      spill_results-le memory lower spilled results r,
    )

async_limits :
    (opts : FlattenOptions) (context : FlattenContext) (params results : List CoreType)
    {signature : CoreFuncType}
    → flatten_async opts context params results ≡ ok signature
    → WithinLimits true context signature
unfolding flatten_async param_limit
async_limits opts lift params results e =
    let (spilled, p, r) = >>=-eq-ok (spill_params opts.memory max_flat_params params) _ e in
    ground (arith, spill_params-le opts.memory max_flat_params params (omega arith) p)
async_limits opts lower params results e =
    let (spilled, p, r) = >>=-eq-ok (spill_params opts.memory max_flat_async_params params) _ e in
    let (out, q, done) = >>=-eq-ok (out_param opts.memory spilled results) _ r in
    ground (
      arith,
      spill_params-le opts.memory max_flat_async_params params (omega arith) p,
      out_param-le opts.memory spilled results q,
    )

-- A signature that is returned has one result at most. It has at most 16 parameters where it is
-- lifted, 17 where it is lowered synchronously and 5 where it is lowered asynchronously.
pub flatten_functype_bounds :
    (opts : FlattenOptions) (ft : FuncType) (context : FlattenContext) {signature : CoreFuncType}
    → flatten_functype opts ft context ≡ ok signature
    → (length signature.params ≤ param_limit opts.is_async context) × (length signature.results ≤ 1)
unfolding flatten_functype
flatten_functype_bounds opts ft context {signature} e =
    let (params, _, more) = >>=-eq-ok (flatten_types opts.memory ft.params) _ e in
    let (results, _, rest) = >>=-eq-ok (flatten_types opts.memory ft.results) _ more in
    limits opts.is_async params results rest
  where
    limits :
        (b : Bool) (params results : List CoreType)
        → (if b
            then flatten_async opts context params results
            else spill_params opts.memory max_flat_params params >>= λ spilled.
                spill_results opts.memory context spilled results)
          ≡ ok signature
        → WithinLimits b context signature
    limits true params results r = async_limits opts context params results r
    limits false params results r = sync_limits opts.memory context params results r
