-- ===== src/Cabi/Despecialized.antt =====
-- runtime/src/cabi/types.ts: `DespecializedValType`, and the discriminants of its variants.
use polyengine.Base.{
  ℕ, suc, ◌^◌, ◌&&◌, Option, List, String, Result, ok, err, error, ltb, leb, if◌then◌else◌,
}
use polyengine.Cabi.Types.{PrimKind}

-- What a traversal sees that despecializes each type when it comes to it.
mutual
  pub data DespecializedType : Type 0 where
    prim : PrimKind → DespecializedType
    error_context : DespecializedType
    list : DespecializedType → Option ℕ → DespecializedType
    record_type : Fields → DespecializedType
    variant : Cases → DespecializedType
    flags : List String → DespecializedType
    own : ℕ → DespecializedType
    borrow : ℕ → DespecializedType
    stream : Payload → DespecializedType
    future : Payload → DespecializedType

  pub data Payload : Type 0 where
    null : Payload
    type : DespecializedType → Payload

  pub data Fields : Type 0 where
    no_fields : Fields
    field_then : String → DespecializedType → Fields → Fields

  pub data Cases : Type 0 where
    no_cases : Cases
    case_then : String → Payload → Cases → Cases

unfoldable pub case_count : Cases → ℕ
case_count Cases.no_cases = 0
case_count (Cases.case_then l t cs) = suc (case_count cs)

unfoldable pub discriminant_size : ℕ → Result ℕ
discriminant_size n =
    if ltb 0 n && ltb n (2 ^ 32)
    then ok (if leb n 256 then 1 else if leb n 65536 then 2 else 4)
    else err (error "assertion failed: case count")
