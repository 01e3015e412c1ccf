-- ===== src/Cabi/Lists.antt =====
-- runtime/src/cabi/load.ts and store.ts: lists in linear memory, and the guest's realloc (context.ts). A
-- list operation gets the `load` or `store` of its elements as an argument.
pub mod Checks
use polyengine.Base.{
  ℕ, zero, suc, ◌+◌, ◌-◌, ◌*◌, ◌%◌, ◌^◌, pos, Bool, true, false, not, Option, none, some, Result,
  ok, err, error, trap, ◌>>=◌, ◌>>◌, assert, trap_if, ltb, leb, ◌==◌,
}
use polyengine.Cabi.Types.{u8}
use polyengine.Cabi.Despecialized.{DespecializedType, prim}
use polyengine.Cabi.Layout.{compute_layout, align_to, ptr_size}
use polyengine.Cabi.Memory.{Memory, load_ptr, store_ptr}
use polyengine.Cabi.Float.{Floats}
use polyengine.Cabi.Value.{Value, no_elements, element, element_count, Host}
use polyengine.Cabi.Access.{HostValue, HostCx}
use polyengine.Cabi.Bulk.{
  bytes_of, HostElements, view_elements, try_load_numeric_list, view_int, set_list,
  try_store_numeric_list,
}

abbrev pub max_list_byte_length : ℕ
max_list_byte_length = 2 ^ 28 - 1

abbrev pub realloc_i32_max : ℕ
realloc_i32_max = 2 ^ 32 - 1

module _ {fl : Floats} (host : Host fl) where
  abbrev pub Reader : Type 0
  Reader = HostCx host → ℕ → Result (HostValue host × HostCx host)

  abbrev pub Writer : Type 0
  Writer = HostCx host → HostValue host → ℕ → Result (HostCx host)

  -- The loop over the elements; `ptr` is the address of the next one.
  unfoldable pub load_elements :
      Reader → HostCx host → ℕ → ℕ → ℕ → Result (HostElements host × HostCx host)
  load_elements read cx ptr size zero = ok (no_elements, cx)
  load_elements read cx ptr size (suc n) = do
    (v, cx') ← read cx ptr
    (vs, cx'') ← load_elements read cx' (ptr + size) size n
    ok (element v vs, cx'')

  -- A list of bytes is copied, other numeric lists are loaded in bulk.
  unfoldable pub load_bulk :
      Memory → ℕ → ℕ → DespecializedType → Result (Option (HostElements host))
  load_bulk mem ptr n (prim u8) = do
    bytes ← bytes_of mem ptr n
    ok (some (view_elements host bytes (λ w. Value.int (pos w)) ptr 1 n))
  load_bulk mem ptr n d = try_load_numeric_list host mem ptr n d

  unfoldable pub load_remaining :
      Reader
      → HostCx host
      → ℕ
      → ℕ
      → ℕ
      → Option (HostElements host)
      → Result (HostValue host × HostCx host)
  load_remaining read cx ptr size n (some vs) = ok (Value.array vs, cx)
  load_remaining read cx ptr size n none = do
    (vs, cx') ← load_elements read cx ptr size n
    ok (Value.array vs, cx')

  unfoldable pub load_list_from_valid_range :
      Reader → DespecializedType → HostCx host → ℕ → ℕ → Result (HostValue host × HostCx host)
  load_list_from_valid_range read t cx ptr n = do
    l ← compute_layout cx.memory.addr_type t
    bulk ← load_bulk cx.memory ptr n t
    load_remaining read cx ptr l.size n bulk

  unfoldable pub load_list_from_range :
      Reader → DespecializedType → HostCx host → ℕ → ℕ → Result (HostValue host × HostCx host)
  load_list_from_range read t cx ptr n = do
    l ← compute_layout cx.memory.addr_type t
    trap_if (ltb max_list_byte_length (n * l.size)) "list too long"
    trap_if (not (ptr % l.align == 0)) "misaligned list pointer"
    trap_if (ltb cx.memory.length (ptr + n * l.size)) "list out of bounds"
    load_list_from_valid_range read t cx ptr n

  unfoldable pub load_list :
      Reader
      → DespecializedType
      → Option ℕ
      → HostCx host
      → ℕ
      → Result (HostValue host × HostCx host)
  load_list read t (some n) cx ptr = load_list_from_valid_range read t cx ptr n
  load_list read t none cx ptr = do
    begin ← load_ptr cx.memory ptr
    n ← load_ptr cx.memory (ptr + ptr_size cx.memory.addr_type)
    load_list_from_range read t cx begin n

  unfoldable pub store_elements :
      Writer → HostCx host → HostElements host → ℕ → ℕ → Result (HostCx host)
  store_elements write cx no_elements ptr size = ok cx
  store_elements write cx (element v vs) ptr size = do
    cx' ← write cx v ptr
    store_elements write cx' vs (ptr + size) size

  unfoldable pub store_bulk :
      Memory → HostElements host → ℕ → DespecializedType → Result (Option Memory)
  store_bulk mem vs ptr (prim u8) = do
    bytes ← bytes_of mem ptr (element_count vs)
    set_list host (view_int host 1 "int store") 1 mem vs ptr
  store_bulk mem vs ptr d = try_store_numeric_list host mem vs ptr d

  unfoldable pub store_remaining :
      Writer → HostCx host → HostElements host → ℕ → ℕ → Option Memory → Result (HostCx host)
  store_remaining write cx vs ptr size (some memory) = ok (record cx { memory = memory })
  store_remaining write cx vs ptr size none = store_elements write cx vs ptr size

  unfoldable pub store_list_into_valid_range :
      Writer → DespecializedType → HostCx host → HostElements host → ℕ → Result (HostCx host)
  store_list_into_valid_range write t cx vs ptr = do
    l ← compute_layout cx.memory.addr_type t
    bulk ← store_bulk cx.memory vs ptr t
    store_remaining write cx vs ptr l.size bulk

  -- `set_may_leave` on the state of a context.
  unfoldable pub leaving : Bool → HostCx host → HostCx host
  leaving b cx = record cx { state = host.set_may_leave b cx.state }

  -- The guest's realloc, with the flag of the instance cleared while it runs.
  unfoldable pub call_realloc :
      Option Bool
      → (HostCx host → Result (ℕ × HostCx host))
      → HostCx host
      → Result (ℕ × HostCx host)
  call_realloc none realloc cx = realloc cx
  call_realloc (some may_leave) realloc cx = do
    assert may_leave "realloc with may_leave already false"
    (ptr, cx') ← realloc (leaving false cx)
    host.checkpoint (leaving true cx').state
    ok (ptr, leaving true cx')

  abbrev pub Realloc : Type 0
  Realloc = HostCx host → ℕ → ℕ → ℕ → ℕ → Result (ℕ × HostCx host)

  unfoldable pub reallocate_by :
      Option Realloc → HostCx host → ℕ → ℕ → ℕ → ℕ → Result (ℕ × HostCx host)
  reallocate_by none cx old old_byte_length alignment new_byte_length =
      err (trap "realloc required but not provided")
  reallocate_by (some realloc) cx old old_byte_length alignment new_byte_length =
      call_realloc (host.may_leave cx.state)
        (λ cx. realloc cx old old_byte_length alignment new_byte_length) cx

  unfoldable pub reallocate : HostCx host → ℕ → ℕ → ℕ → ℕ → Result (ℕ × HostCx host)
  reallocate cx old old_byte_length alignment new_byte_length =
      reallocate_by host.realloc cx old old_byte_length alignment new_byte_length

  unfoldable pub allocate : HostCx host → ℕ → ℕ → Result (ℕ × HostCx host)
  allocate cx alignment byte_length = reallocate cx 0 0 alignment byte_length

  unfoldable pub store_list_into_range :
      Writer → DespecializedType → HostCx host → HostElements host → Result ((ℕ × ℕ) × HostCx host)
  store_list_into_range write t cx vs = do
    l ← compute_layout cx.memory.addr_type t
    assert (leb (element_count vs * l.size) realloc_i32_max) ""
    (ptr, cx') ← allocate cx l.align (element_count vs * l.size)
    trap_if (not (ptr == align_to ptr l.align)) "realloc return: result not aligned"
    trap_if (ltb cx'.memory.length (ptr + element_count vs * l.size))
        "realloc return: beyond end of memory"
    cx'' ← store_list_into_valid_range write t cx' vs ptr
    ok ((ptr, element_count vs), cx'')

  unfoldable pub elements_of : HostValue host → Result (HostElements host)
  elements_of (Value.array vs) = ok vs
  elements_of v = err (error "not an array")

  unfoldable pub store_elements_of :
      Writer
      → DespecializedType
      → Option ℕ
      → HostCx host
      → HostElements host
      → ℕ
      → Result (HostCx host)
  store_elements_of write t (some n) cx vs ptr = do
    assert (n == element_count vs) "fixed-length list length mismatch"
    store_list_into_valid_range write t cx vs ptr
  store_elements_of write t none cx vs ptr = do
    ((begin, n), cx') ← store_list_into_range write t cx vs
    memory ← store_ptr cx'.memory begin ptr
    memory' ← store_ptr memory n (ptr + ptr_size memory.addr_type)
    ok (record cx' { memory = memory' })

  unfoldable pub store_list :
      Writer
      → DespecializedType
      → Option ℕ
      → HostCx host
      → HostValue host
      → ℕ
      → Result (HostCx host)
  store_list write t n cx v ptr = do vs ← elements_of v; store_elements_of write t n cx vs ptr
