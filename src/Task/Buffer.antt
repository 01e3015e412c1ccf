-- ===== src/Task/Buffer.antt =====
-- runtime/src/task/streams.ts: `GuestBuffer` and `rendezvousCopy`. A buffer spans elements in the memory
-- of its context; contexts are named by addresses, the same one where they share a memory.
pub mod Copy
use polyengine.Base.{
  ℕ, zero, suc, ◌+◌, ◌-◌, ◌*◌, ◌%◌, ◌^◌, min, Bool, true, false, not, ◌&&◌, ◌||◌, Option, none,
  some, List, [], ◌∷◌, ◌++◌, Result, ok, err, assertion_error, ◌>>=◌, ◌>>◌, assert, trap_if, ltb,
  leb, ◌==◌, if◌then◌else◌, length,
}
use polyengine.Cabi.Types.{MaybeType, PrimKind, ValType}
use polyengine.Cabi.Types.Equality.{Identity, val_type_equal}
use polyengine.Cabi.Types.Despecialize.{despecialize_all}
use polyengine.Cabi.Layout.{layout_of, align_to}
use polyengine.Cabi.Float.{Floats}
use polyengine.Cabi.Value.{Value, no_elements, element, element_count, Host}
use polyengine.Cabi.Access.{HostValue, HostCx}
use polyengine.Cabi.Bulk.{HostElements}
use polyengine.Cabi.Lists.{load_list_from_valid_range, store_list_into_valid_range, elements_of}
use polyengine.Cabi.Store.{load, store}
use polyengine.Task.Waitable.{put}

pub record Buffer : Type 0 where
  pub elem : MaybeType
  pub cx : ℕ
  pub ptr : ℕ
  pub count : ℕ
  pub progress : ℕ

abbrev pub buffer_max_length : ℕ
buffer_max_length = 2 ^ 28 - 1

unfoldable pub remain : Buffer → ℕ
remain b = b.count - b.progress

unfoldable pub is_zero_length : Buffer → Bool
is_zero_length b = b.count == 0

unfoldable pub is_null : MaybeType → Bool
is_null MaybeType.null = true
is_null (MaybeType.type t) = false

unfoldable pub advance_zero_width : Buffer → ℕ → Result Buffer
advance_zero_width b n = do
  assert (is_null b.elem) "count advance on a payload-bearing buffer"
  assert (leb n (remain b)) "count advance beyond remaining"
  ok (record b { progress = b.progress + n })

-- A buffer that has moved over `n` elements of this size.
abbrev pub advanced : Buffer → ℕ → ℕ → Buffer
advanced b n size = record b { ptr = b.ptr + n * size; progress = b.progress + n }

module _ {fl : Floats} (host : Host fl) where
  abbrev pub Contexts : Type 0
  Contexts = ℕ → HostCx host

  -- The elements of a buffer of type `t`, at its cursor.
  unfoldable pub load_range : ValType → HostCx host → ℕ → ℕ → Result (HostValue host × HostCx host)
  load_range t cx ptr n =
      load_list_from_valid_range host (λ c p. load host (despecialize_all t) c p)
        (despecialize_all t) cx ptr n

  unfoldable pub store_range : ValType → HostCx host → HostElements host → ℕ → Result (HostCx host)
  store_range t cx vs ptr =
      store_list_into_valid_range host (λ c v p. store host (despecialize_all t) c v p)
        (despecialize_all t) cx vs ptr

  -- The checks of a place for the elements of a new buffer.
  unfoldable pub check_place : HostCx host → ℕ → ℕ → MaybeType → Result (Unit {0})
  check_place cx ptr n MaybeType.null = ok tt
  check_place cx ptr n (MaybeType.type t) = do
    l ← layout_of t cx.memory.addr_type
    trap_if (not (ptr == align_to ptr l.align)) "unaligned buffer pointer"
    trap_if (ltb cx.memory.length (ptr + n * l.size)) "buffer out of bounds"

  unfoldable pub new_buffer : Contexts → MaybeType → ℕ → ℕ → ℕ → Result Buffer
  new_buffer contexts t cx ptr n = do
    trap_if (ltb buffer_max_length n) "stream read/write count too large"
    (if ltb 0 n then check_place (contexts cx) ptr n t else ok tt)
    ok (record { elem = t; cx = cx; ptr = ptr; count = n; progress = 0 })

  unfoldable pub placeholders : ℕ → HostElements host
  placeholders zero = no_elements
  placeholders (suc n) = element Value.null (placeholders n)

  unfoldable pub is_placeholder : HostValue host → Bool
  is_placeholder Value.null = true
  is_placeholder v = false

  unfoldable pub all_placeholders : HostElements host → Bool
  all_placeholders no_elements = true
  all_placeholders (element v vs) = is_placeholder v && all_placeholders vs

  unfoldable pub read_elements :
      Contexts → Buffer → ℕ → MaybeType → Result (HostElements host × Buffer × Contexts)
  read_elements contexts b n MaybeType.null =
      ok (placeholders n, record b { progress = b.progress + n }, contexts)
  read_elements contexts b n (MaybeType.type t) = do
    l ← layout_of t (contexts b.cx).memory.addr_type
    (v, cx) ← load_range t (contexts b.cx) b.ptr n
    vs ← elements_of host v
    ok (vs, advanced b n l.size, put contexts b.cx cx)

  unfoldable pub buffer_read :
      Contexts → Buffer → ℕ → Result (HostElements host × Buffer × Contexts)
  buffer_read contexts b n = do
    assert (leb n (remain b)) "buffer read beyond remaining"
    read_elements contexts b n b.elem

  unfoldable pub write_elements :
      Contexts → Buffer → HostElements host → MaybeType → Result (Buffer × Contexts)
  write_elements contexts b vs MaybeType.null = do
    assert (all_placeholders vs) "zero-width buffer written with a non-empty element"
    ok (record b { progress = b.progress + element_count vs }, contexts)
  write_elements contexts b vs (MaybeType.type t) = do
    l ← layout_of t (contexts b.cx).memory.addr_type
    cx ← store_range t (contexts b.cx) vs b.ptr
    ok (advanced b (element_count vs) l.size, put contexts b.cx cx)

  unfoldable pub buffer_write : Contexts → Buffer → HostElements host → Result (Buffer × Contexts)
  buffer_write contexts b vs = do
    assert (leb (element_count vs) (remain b)) "buffer write beyond remaining"
    write_elements contexts b vs b.elem

  -- `dst.write(src.read(n))`: the source and the destination afterwards.
  unfoldable pub copy_elements :
      Contexts → Buffer → Buffer → ℕ → Result (Buffer × Buffer × Contexts)
  copy_elements contexts src dst n = do
    (vs, src', contexts') ← buffer_read contexts src n
    (dst', contexts'') ← buffer_write contexts' dst vs
    ok (src', dst', contexts'')

  unfoldable pub rendezvous_copy :
      Contexts → Buffer → Buffer → ℕ → Result (Buffer × Buffer × Contexts)
  rendezvous_copy contexts src dst n =
      if is_null src.elem && is_null dst.elem
      then (do
        src' ← advance_zero_width src n
        dst' ← advance_zero_width dst n
        ok (src', dst', contexts))
      else copy_elements contexts src dst n
