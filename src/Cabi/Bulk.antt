-- ===== src/Cabi/Bulk.antt =====
-- runtime/src/cabi/bulk_lists.ts: lists of numbers or booleans, copied in bulk through a typed array.
-- A view is taken when the platform is little-endian and the address is aligned for it.
use polyengine.Base.{
  ℕ, zero, suc, ◌+◌, ◌%◌, pos, Bool, not, ◌&&◌, Option, none, some, String, Result, ok, err, error,
  assertion_error, ◌>>=◌, ◌>>◌, assert, leb, ◌==◌, if◌then◌else◌,
}
use polyengine.Cabi.Types.{PrimKind, bool, s8, s16, u16, s32, u32, s64, u64, f32, f64}
use polyengine.Cabi.Despecialized.{DespecializedType, prim}
use polyengine.Cabi.Memory.{Memory, get_uint, set_uint, to_word, of_word}
use polyengine.Cabi.Float.{Floats, encode_float_as_i32, encode_float_as_i64}
use polyengine.Cabi.Value.{
  Value, Elements, no_elements, element, element_count, Host, truthy, flag_bit,
}
use polyengine.Cabi.Access.{HostValue}

-- The assertion of `bytesOf`.
unfoldable pub bytes_of : Memory → ℕ → ℕ → Result (ℕ → ℕ)
bytes_of mem ptr len = do assert (leb (ptr + len) mem.length) "range OOB"; ok mem.byte

module _ {fl : Floats} (host : Host fl) where
  abbrev pub HostElements : Type 0
  HostElements = Elements fl.Number host.Other

  -- `viewOf`: the platform's byte order is the memory's, and the view is aligned.
  unfoldable pub view_of : Memory → ℕ → ℕ → Bool
  view_of mem ptr size = host.little_endian && ((mem.byte_offset + ptr) % size == 0)

  -- The element of a typed array for its bytes. A NaN is JavaScript's.
  unfoldable pub view_float : (ℕ → fl.Number) → ℕ → HostValue host
  view_float get w = Value.float (if fl.is_nan (get w) then fl.nan else get w)

  -- The size of the elements of the typed array for a kind, and how it reads one.
  unfoldable pub view_kind : PrimKind → Option (ℕ × (ℕ → HostValue host))
  view_kind s8 = some (1, λ w. Value.int (of_word 1 w))
  view_kind u16 = some (2, λ w. Value.int (pos w))
  view_kind s16 = some (2, λ w. Value.int (of_word 2 w))
  view_kind u32 = some (4, λ w. Value.int (pos w))
  view_kind s32 = some (4, λ w. Value.int (of_word 4 w))
  view_kind u64 = some (8, λ w. Value.int (pos w))
  view_kind s64 = some (8, λ w. Value.int (of_word 8 w))
  view_kind f32 = some (4, view_float fl.get_float32)
  view_kind f64 = some (8, view_float fl.get_float64)
  view_kind _ = none

  -- `n` elements of `size` bytes from `ptr` on.
  unfoldable pub view_elements : (ℕ → ℕ) → (ℕ → HostValue host) → ℕ → ℕ → ℕ → HostElements
  view_elements byte read ptr size zero = no_elements
  view_elements byte read ptr size (suc n) =
      element (read (get_uint byte ptr size)) (view_elements byte read (ptr + size) size n)

  unfoldable pub view_list :
      Memory → ℕ → ℕ → Option (ℕ × (ℕ → HostValue host)) → Option HostElements
  view_list mem ptr n none = none
  view_list mem ptr n (some (size, read)) =
      if view_of mem ptr size then some (view_elements mem.byte read ptr size n) else none

  unfoldable pub try_load_numeric_list :
      Memory → ℕ → ℕ → DespecializedType → Result (Option HostElements)
  try_load_numeric_list mem ptr n (prim bool) = do
    bytes ← bytes_of mem ptr n
    ok (some (view_elements bytes (λ w. Value.boolean (not (w == 0))) ptr 1 n))
  try_load_numeric_list mem ptr n (prim p) = ok (view_list mem ptr n (view_kind p))
  try_load_numeric_list mem ptr n d = ok none

  -- The bytes of an element as the typed array for a kind writes it: integers wrap.
  unfoldable pub view_int : ℕ → String → HostValue host → Result ℕ
  view_int size refused (Value.int z) = ok (to_word size z)
  view_int size refused v = err (assertion_error refused)

  unfoldable pub view_number : (fl.Number → ℕ) → HostValue host → Result ℕ
  view_number encode (Value.float f) = ok (encode f)
  view_number encode v = err (error "not a number")

  unfoldable pub store_kind : PrimKind → Option (ℕ × (HostValue host → Result ℕ))
  store_kind s8 = some (1, view_int 1 "int store")
  store_kind u16 = some (2, view_int 2 "int store")
  store_kind s16 = some (2, view_int 2 "int store")
  store_kind u32 = some (4, view_int 4 "int store")
  store_kind s32 = some (4, view_int 4 "int store")
  store_kind u64 = some (8, view_int 8 "64-bit store requires bigint")
  store_kind s64 = some (8, view_int 8 "64-bit store requires bigint")
  store_kind f32 = some (4, view_number (encode_float_as_i32 fl))
  store_kind f64 = some (8, view_number (encode_float_as_i64 fl))
  store_kind _ = none

  unfoldable pub set_elements :
      (HostValue host → Result ℕ) → ℕ → HostElements → ℕ → (ℕ → ℕ) → Result (ℕ → ℕ)
  set_elements write size no_elements ptr byte = ok byte
  set_elements write size (element v vs) ptr byte = do
    w ← write v
    set_elements write size vs (ptr + size) (set_uint byte ptr size w)

  unfoldable pub set_list :
      (HostValue host → Result ℕ) → ℕ → Memory → HostElements → ℕ → Result (Option Memory)
  set_list write size mem vs ptr = do
    byte ← set_elements write size vs ptr mem.byte
    ok (some (record mem { byte = byte }))

  unfoldable pub store_view :
      Memory → HostElements → ℕ → Option (ℕ × (HostValue host → Result ℕ)) → Result (Option Memory)
  store_view mem vs ptr none = ok none
  store_view mem vs ptr (some (size, write)) =
      if view_of mem ptr size then set_list write size mem vs ptr else ok none

  unfoldable pub try_store_numeric_list :
      Memory → HostElements → ℕ → DespecializedType → Result (Option Memory)
  try_store_numeric_list mem vs ptr (prim bool) = do
    bytes ← bytes_of mem ptr (element_count vs)
    set_list (λ v. ok (flag_bit (truthy host v))) 1 mem vs ptr
  try_store_numeric_list mem vs ptr (prim p) = store_view mem vs ptr (store_kind p)
  try_store_numeric_list mem vs ptr d = ok none
