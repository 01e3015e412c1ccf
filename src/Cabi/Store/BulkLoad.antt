-- ===== src/Cabi/Store/BulkLoad.antt =====
-- A list of numbers that is loaded in bulk is the list that the loop over its elements loads.
use polyengine.Base.{
  ℕ, zero, suc, ◌+◌, ◌*◌, ◌%◌, ◌≤◌, ◌≡◌, ◌==◌, not, refl, sym, ap, ◌∙◌, Bool, true, false,
  if◌then◌else◌, none, some, Option, ok, ok_injective, ◌>>=◌, assert-eq, le→leb, arith, pos, subst,
}
use polyengine.Cabi.Types.{PrimKind, bool, s8, u8, s16, u16, s32, u32, s64, u64, f32, f64, string}
use polyengine.Cabi.Despecialized.{
  DespecializedType, prim, error_context, list, record_type, variant, flags, own, borrow, stream,
  future,
}
use polyengine.Cabi.Layout.{Layout, compute_layout, mk_layout, prim_layout, is_power_of_two}
use polyengine.Cabi.Memory.{Memory, get_uint, of_word, load_int_u, load_int_s}
use polyengine.Cabi.Float.{
  Floats, decode_i32_as_float-get, decode_i64_as_float-get, nan_literal, decode_i32_as_float,
  decode_i64_as_float,
}
use polyengine.Cabi.Value.{Value, Host}
use polyengine.Cabi.Access.{
  HostValue, HostCx, load_prim, load_unsigned, load_signed, load_float, load_bool,
  convert_int_to_bool,
}
use polyengine.Cabi.Bulk.{
  bytes_of, view_of, view_float, view_kind, view_list, view_elements, try_load_numeric_list,
}
use polyengine.Cabi.Lists.{load_elements, load_bulk, load_remaining, load_list_from_valid_range}
use polyengine.Cabi.Store.{load}
use polyengine.Cabi.Store.Places.{place-ok}
use polyengine.Cabi.Store.Arrays.{add-aligned, FitsAll}

-- The layout of a type of `n` bytes, aligned for its size.
abbrev pub square : DespecializedType → ℕ → Layout
square d n = record {
  d = d;
  align = n;
  size = n;
  field_offsets = none;
  disc_size = 0;
  payload_offset = 0;
}

load_int_u-in :
    (m : Memory) (ptr n : ℕ) → ptr + n ≤ m.length → load_int_u m ptr n ≡ ok (get_uint m.byte ptr n)
unfolding load_int_u
load_int_u-in m ptr n inside = assert-eq _ _ _ (le→leb _ _ inside)

load_int_s-in :
    (m : Memory) (ptr n : ℕ)
    → ptr + n ≤ m.length
    → load_int_s m ptr n ≡ ok (of_word n (get_uint m.byte ptr n))
unfolding load_int_s
load_int_s-in m ptr n inside = assert-eq _ _ _ (le→leb _ _ inside)

module _ {fl : Floats} (host : Host fl) where
  -- A type of `size` bytes whose load is a function of the word at the address.
  abbrev pub ReadsWords : PrimKind → HostCx host → ℕ → (ℕ → HostValue host) → Type 0
  ReadsWords p cx size read =
      (compute_layout cx.memory.addr_type (prim p) ≡ ok (square (prim p) size))
      × ((ptr : ℕ)
          → ptr + size ≤ cx.memory.length
          → load_prim host p cx ptr ≡ ok (read (get_uint cx.memory.byte ptr size), cx))

  load-word :
      (p : PrimKind) (cx : HostCx host) (size : ℕ) (read : ℕ → HostValue host) (ptr : ℕ)
      → ReadsWords p cx size read
      → ptr % size ≡ 0
      → ptr + size ≤ cx.memory.length
      → load host (prim p) cx ptr ≡ ok (read (get_uint cx.memory.byte ptr size), cx)
  unfolding load
  load-word p cx size read ptr (laid, reads) aligned inside =
      rw (place-ok host "load misaligned" "load OOB" (prim p) cx ptr laid aligned inside)
        (reads ptr inside)

  load_elements-view :
      (p : PrimKind) (cx : HostCx host) (size : ℕ) (read : ℕ → HostValue host)
      → ReadsWords p cx size read
      → size % size ≡ 0
      → (n ptr : ℕ) → ptr % size ≡ 0
      → ptr + n * size ≤ cx.memory.length
      → load_elements host (λ c p'. load host (prim p) c p') cx ptr size n
        ≡ ok (view_elements host cx.memory.byte read ptr size n, cx)
  unfolding load_elements view_elements
  load_elements-view p cx size read words whole zero ptr aligned inside = refl
  load_elements-view p cx size read words whole (suc n) ptr aligned inside =
      let first = load-word p cx size read ptr words aligned (omega arith) in
      let rest =
        load_elements-view p cx size read words whole n (ptr + size)
          (add-aligned ptr size size aligned whole) (omega arith) in
      rw (first, rest) refl

  -- The canonical NaN is JavaScript's.
  view_float-decode32 :
      (w : ℕ) → view_float host fl.get_float32 w ≡ Value.float (decode_i32_as_float fl w)
  unfolding view_float
  view_float-decode32 w =
      ap Value.float (nan_literal fl (fl.get_float32 w) ∙ sym (decode_i32_as_float-get fl w))

  view_float-decode64 :
      (w : ℕ) → view_float host fl.get_float64 w ≡ Value.float (decode_i64_as_float fl w)
  unfolding view_float
  view_float-decode64 w =
      ap Value.float (nan_literal fl (fl.get_float64 w) ∙ sym (decode_i64_as_float-get fl w))

  convert_int_to_bool-nonzero : (w : ℕ) → convert_int_to_bool w ≡ not (w == 0)
  unfolding convert_int_to_bool
  convert_int_to_bool-nonzero zero = refl
  convert_int_to_bool-nonzero (suc w) = ground arith

  -- What is viewed as words is loaded as words.
  abbrev pub ViewReads : PrimKind → HostCx host → Option (ℕ × (ℕ → HostValue host)) → Type 0
  ViewReads p cx none = Unit
  ViewReads p cx (some (size, read)) = ReadsWords p cx size read × (size % size ≡ 0)

  view_kind-ViewReads : (p : PrimKind) (cx : HostCx host) → ViewReads p cx (view_kind host p)
  unfolding view_kind compute_layout prim_layout mk_layout is_power_of_two load_prim load_signed
      load_unsigned load_float
  view_kind-ViewReads s8 cx = ((refl, λ ptr h. rw (load_int_s-in cx.memory ptr 1 h) refl), refl)
  view_kind-ViewReads u16 cx = ((refl, λ ptr h. rw (load_int_u-in cx.memory ptr 2 h) refl), refl)
  view_kind-ViewReads s16 cx = ((refl, λ ptr h. rw (load_int_s-in cx.memory ptr 2 h) refl), refl)
  view_kind-ViewReads u32 cx = ((refl, λ ptr h. rw (load_int_u-in cx.memory ptr 4 h) refl), refl)
  view_kind-ViewReads s32 cx = ((refl, λ ptr h. rw (load_int_s-in cx.memory ptr 4 h) refl), refl)
  view_kind-ViewReads u64 cx = ((refl, λ ptr h. rw (load_int_u-in cx.memory ptr 8 h) refl), refl)
  view_kind-ViewReads s64 cx = ((refl, λ ptr h. rw (load_int_s-in cx.memory ptr 8 h) refl), refl)
  view_kind-ViewReads f32 cx = (
    (
      refl,
      λ ptr h.
          rw (load_int_u-in cx.memory ptr 4 h) (ap (λ v. ok (v, cx)) (sym (view_float-decode32 _))),
    ),
    refl,
  )
  view_kind-ViewReads f64 cx = (
    (
      refl,
      λ ptr h.
          rw (load_int_u-in cx.memory ptr 8 h) (ap (λ v. ok (v, cx)) (sym (view_float-decode64 _))),
    ),
    refl,
  )
  view_kind-ViewReads bool cx = tt
  view_kind-ViewReads u8 cx = tt
  view_kind-ViewReads PrimKind.char cx = tt
  view_kind-ViewReads string cx = tt

  u8-ReadsWords : (cx : HostCx host) → ReadsWords u8 cx 1 (λ w. Value.int (pos w))
  unfolding compute_layout prim_layout mk_layout is_power_of_two load_prim load_unsigned
  u8-ReadsWords cx = (refl, λ ptr h. rw (load_int_u-in cx.memory ptr 1 h) refl)

  bool-ReadsWords : (cx : HostCx host) → ReadsWords bool cx 1 (λ w. Value.boolean (not (w == 0)))
  unfolding compute_layout prim_layout mk_layout is_power_of_two load_prim load_bool
  bool-ReadsWords cx = (
    refl,
    λ ptr h.
        rw (load_int_u-in cx.memory ptr 1 h)
          (ap (λ b. ok (Value.boolean b, cx)) (convert_int_to_bool-nonzero _)),
  )

  -- The bulk load of a kind, whether the view is taken or not, is the loop.
  bulk_or_loop :
      (p : PrimKind) (cx : HostCx host) (ptr n : ℕ) (b : Bool) (size : ℕ)
      (read : ℕ → HostValue host) (l : Layout)
      → ReadsWords p cx size read
      → size % size ≡ 0
      → FitsAll host (prim p) cx ptr n l
      → load_remaining host
          (λ c p'. load host (prim p) c p')
          cx
          ptr
          l.size
          n
          (if b then some (view_elements host cx.memory.byte read ptr size n) else none)
        ≡ load_remaining host (λ c p'. load host (prim p) c p') cx ptr l.size n none
  unfolding load_remaining
  bulk_or_loop p cx ptr n false size read l words whole fits = refl
  bulk_or_loop p cx ptr n true size read l words whole (e, aligned, inside) =
      let same = ok_injective (sym e ∙ words.0) in
      let at_size : l.size ≡ size = ap (λ l. l.size) same in
      let at_align : l.align ≡ size = ap (λ l. l.align) same in
      let loop =
        load_elements-view p cx size read words whole n ptr
          (subst (λ a. ptr % a ≡ 0) at_align aligned)
          (subst (λ s. ptr + n * s ≤ cx.memory.length) at_size inside) in
      rw (at_size, loop) refl

  view_or_loop :
      (p : PrimKind) (cx : HostCx host) (ptr n : ℕ) (view : Option (ℕ × (ℕ → HostValue host)))
      (l : Layout)
      → ViewReads p cx view
      → FitsAll host (prim p) cx ptr n l
      → load_remaining host
          (λ c p'. load host (prim p) c p')
          cx
          ptr
          l.size
          n
          (view_list host cx.memory ptr n view)
        ≡ load_remaining host (λ c p'. load host (prim p) c p') cx ptr l.size n none
  unfolding view_list
  view_or_loop p cx ptr n none l reads fits = refl
  view_or_loop p cx ptr n (some (size, read)) l (words, whole) fits =
      bulk_or_loop p cx ptr n (view_of host cx.memory ptr size) size read l words whole fits

  -- The types that are always loaded in a loop.
  no_bulk :
      (t : DespecializedType) (cx : HostCx host) (ptr n : ℕ) (l : Layout)
      → compute_layout cx.memory.addr_type t ≡ ok l
      → load_bulk host cx.memory ptr n t ≡ ok none
      → load_list_from_valid_range host (λ c p. load host t c p) t cx ptr n
        ≡ load_remaining host (λ c p. load host t c p) cx ptr l.size n none
  unfolding load_list_from_valid_range
  no_bulk t cx ptr n l e bulk = rw (e, bulk) refl

  bulk_kind :
      (p : PrimKind) (cx : HostCx host) (ptr n : ℕ) (l : Layout)
      → FitsAll host (prim p) cx ptr n l
      → load_bulk host cx.memory ptr n (prim p)
        ≡ ok (view_list host cx.memory ptr n (view_kind host p))
      → load_list_from_valid_range host (λ c p'. load host (prim p) c p') (prim p) cx ptr n
        ≡ load_remaining host (λ c p'. load host (prim p) c p') cx ptr l.size n none
  unfolding load_list_from_valid_range
  bulk_kind p cx ptr n l fits bulk =
      rw (fits.0, bulk)
        (view_or_loop p cx ptr n (view_kind host p) l (view_kind-ViewReads p cx) fits)

  -- Bytes and booleans, whose view needs no alignment.
  byte_kind :
      (p : PrimKind) (cx : HostCx host) (ptr n : ℕ) (l : Layout) (read : ℕ → HostValue host)
      → FitsAll host (prim p) cx ptr n l
      → ReadsWords p cx 1 read
      → (load_bulk host cx.memory ptr n (prim p) ≡ (
          bytes_of cx.memory ptr n >>= λ bytes. ok (some (view_elements host bytes read ptr 1 n))))
      → load_list_from_valid_range host (λ c p'. load host (prim p) c p') (prim p) cx ptr n
        ≡ load_remaining host (λ c p'. load host (prim p) c p') cx ptr l.size n none
  unfolding load_list_from_valid_range bytes_of
  byte_kind p cx ptr n l read (e, aligned, inside) words bulk =
      let size : l.size ≡ 1 = ap (λ l. l.size) (ok_injective (sym e ∙ words.0)) in
      let bytes : ptr + n * 1 ≤ cx.memory.length =
        subst (λ s. ptr + n * s ≤ cx.memory.length) size inside in
      let room = le→leb (ptr + n) cx.memory.length (omega (arith, bytes)) in
      rw (e, bulk, room) (bulk_or_loop p cx ptr n true 1 read l words refl (e, aligned, inside))

  -- A list within the memory, at an address aligned for its elements, is loaded as the loop over its
  -- elements loads it, whether the bulk copy of numbers, booleans or bytes is taken or not.
  pub load_list_from_valid_range-loop :
      (t : DespecializedType) (cx : HostCx host) (ptr n : ℕ) {l : Layout}
      → compute_layout cx.memory.addr_type t ≡ ok l
      → ptr % l.align ≡ 0
      → ptr + n * l.size ≤ cx.memory.length
      → load_list_from_valid_range host (λ c p. load host t c p) t cx ptr n
        ≡ load_remaining host (λ c p. load host t c p) cx ptr l.size n none
  unfolding load_bulk try_load_numeric_list view_kind view_list
  load_list_from_valid_range-loop (prim bool) cx ptr n {l} e a i =
      byte_kind bool cx ptr n l _ (e, a, i) (bool-ReadsWords cx) refl
  load_list_from_valid_range-loop (prim u8) cx ptr n {l} e a i =
      byte_kind u8 cx ptr n l _ (e, a, i) (u8-ReadsWords cx) refl
  load_list_from_valid_range-loop (prim s8) cx ptr n {l} e a i =
      bulk_kind s8 cx ptr n l (e, a, i) refl
  load_list_from_valid_range-loop (prim u16) cx ptr n {l} e a i =
      bulk_kind u16 cx ptr n l (e, a, i) refl
  load_list_from_valid_range-loop (prim s16) cx ptr n {l} e a i =
      bulk_kind s16 cx ptr n l (e, a, i) refl
  load_list_from_valid_range-loop (prim u32) cx ptr n {l} e a i =
      bulk_kind u32 cx ptr n l (e, a, i) refl
  load_list_from_valid_range-loop (prim s32) cx ptr n {l} e a i =
      bulk_kind s32 cx ptr n l (e, a, i) refl
  load_list_from_valid_range-loop (prim u64) cx ptr n {l} e a i =
      bulk_kind u64 cx ptr n l (e, a, i) refl
  load_list_from_valid_range-loop (prim s64) cx ptr n {l} e a i =
      bulk_kind s64 cx ptr n l (e, a, i) refl
  load_list_from_valid_range-loop (prim f32) cx ptr n {l} e a i =
      bulk_kind f32 cx ptr n l (e, a, i) refl
  load_list_from_valid_range-loop (prim f64) cx ptr n {l} e a i =
      bulk_kind f64 cx ptr n l (e, a, i) refl
  load_list_from_valid_range-loop (prim PrimKind.char) cx ptr n {l} e a i =
      no_bulk (prim PrimKind.char) cx ptr n l e refl
  load_list_from_valid_range-loop (prim string) cx ptr n {l} e a i =
      no_bulk (prim string) cx ptr n l e refl
  load_list_from_valid_range-loop error_context cx ptr n {l} e a i =
      no_bulk error_context cx ptr n l e refl
  load_list_from_valid_range-loop (list t m) cx ptr n {l} e a i =
      no_bulk (list t m) cx ptr n l e refl
  load_list_from_valid_range-loop (record_type fs) cx ptr n {l} e a i =
      no_bulk (record_type fs) cx ptr n l e refl
  load_list_from_valid_range-loop (variant cs) cx ptr n {l} e a i =
      no_bulk (variant cs) cx ptr n l e refl
  load_list_from_valid_range-loop (flags ls) cx ptr n {l} e a i =
      no_bulk (flags ls) cx ptr n l e refl
  load_list_from_valid_range-loop (own r) cx ptr n {l} e a i = no_bulk (own r) cx ptr n l e refl
  load_list_from_valid_range-loop (borrow r) cx ptr n {l} e a i =
      no_bulk (borrow r) cx ptr n l e refl
  load_list_from_valid_range-loop (stream s) cx ptr n {l} e a i =
      no_bulk (stream s) cx ptr n l e refl
  load_list_from_valid_range-loop (future s) cx ptr n {l} e a i =
      no_bulk (future s) cx ptr n l e refl
