-- ===== src/Cabi/Types.antt =====
-- runtime/src/cabi/types.ts: the descriptor model of component value types.
pub mod Equality
pub mod Despecialize
mod Tests
use polyengine.Base.{ℕ, Option, List, String}

pub data PtrType : Type 0 where
  i32 i64 : PtrType

pub data CoreType : Type 0 where
  i32 i64 f32 f64 : CoreType

pub data PrimKind : Type 0 where
  bool s8 u8 s16 u16 s32 u32 s64 u64 f32 f64 char string : PrimKind

-- `own` and `borrow` name the component-local handle table (`ResourceTableInfo`) by its identity.
-- A nullable type (`ValType | null`) is a `MaybeType`. Only the shape of types is modelled, so the
-- object identity that the memo tables key on does not show.
mutual
  pub data ValType : Type 0 where
    prim : PrimKind → ValType
    error_context : ValType
    list : ValType → Option ℕ → ValType
    record_type : FieldTypes → ValType
    tuple : ValTypes → ValType
    variant : CaseTypes → ValType
    enum : List String → ValType
    option : ValType → ValType
    result : MaybeType → MaybeType → ValType
    map : ValType → ValType → ValType
    flags : List String → ValType
    own : ℕ → ValType
    borrow : ℕ → ValType
    stream : MaybeType → ValType
    future : MaybeType → ValType

  pub data MaybeType : Type 0 where
    null : MaybeType
    type : ValType → MaybeType

  pub data ValTypes : Type 0 where
    no_types : ValTypes
    type_then : ValType → ValTypes → ValTypes

  pub data FieldTypes : Type 0 where
    no_fields : FieldTypes
    field_then : String → ValType → FieldTypes → FieldTypes

  pub data CaseTypes : Type 0 where
    no_cases : CaseTypes
    case_then : String → MaybeType → CaseTypes → CaseTypes
