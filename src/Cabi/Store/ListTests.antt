-- ===== src/Cabi/Store/ListTests.antt =====
-- Lists in a memory of sixteen bytes, where the guest's realloc returns 8.
use polyengine.Base.{
  ℕ, ◌+◌, ◌*◌, ◌%◌, ◌≤◌, ◌≡◌, refl, none, some, [], pos, negsuc, Bool, true, false, ok, err, trap,
  Returns, arith, inr,
}
use polyengine.Cabi.Types.{PtrType, s16, u32}
use polyengine.Cabi.Despecialized.{prim, list}
use polyengine.Cabi.Layout.{
  Layout, compute_layout, prim_layout, mk_layout, is_power_of_two, align_to,
}
use polyengine.Cabi.Memory.{
  get_uint, set_uint, to_word, of_word, fits_in_width, load_int_s, load_int_u, store_int,
}
use polyengine.Cabi.Float.Sample.{samples}
use polyengine.Cabi.Value.{Host, int, array, element, no_elements, element_count, flag_bit, truthy}
use polyengine.Cabi.Access.{
  HostCx, place, load_prim, load_signed, store_prim, store_number, store_word,
}
use polyengine.Cabi.Bulk.{
  HostElements, bytes_of, view_of, view_kind, view_list, view_elements, try_load_numeric_list,
  view_int, store_kind, set_elements, set_list, store_view, try_store_numeric_list,
}
use polyengine.Cabi.Lists.{
  realloc_i32_max, load_elements, load_bulk, load_remaining, load_list_from_valid_range,
  load_list_from_range, load_list, store_elements, store_bulk, store_remaining,
  store_list_into_valid_range, leaving, call_realloc, reallocate_by, reallocate, allocate,
  store_list_into_range, elements_of, store_elements_of, store_list, Realloc,
}
use polyengine.Cabi.Lists.Checks.{store_list_into_range-checked, reallocate-guarded}
use polyengine.Cabi.Store.{store, load}
use polyengine.Cabi.Store.Typing.{Typed, PrimTyped, IntTyped, AllElements}
use polyengine.Cabi.Store.BulkLoad.{square, load_list_from_valid_range-loop}
use polyengine.Cabi.Store.BulkKinds.{store_list_into_valid_range-loop}
use polyengine.Cabi.Store.GuestLists.{Kept, load-store-list}
use polyengine.Cabi.Store.Tests.{sample_host, start}

list_code : ℕ
unfolding compute_layout prim_layout mk_layout is_power_of_two align_to get_uint set_uint to_word
    of_word fits_in_width load_int_s load_int_u store_int element_count place load_prim load_signed
    store_prim store_number store_word bytes_of view_of view_kind view_list view_elements
    try_load_numeric_list view_int store_kind set_elements set_list store_view
    try_store_numeric_list load_elements load_bulk load_remaining load_list_from_valid_range
    load_list_from_range load_list store_elements store_bulk store_remaining
    store_list_into_valid_range leaving call_realloc reallocate_by reallocate allocate
    store_list_into_range elements_of store_elements_of store_list store load flag_bit truthy
list_code = 0

-- The elements 5 and -2.
abbrev levels : HostElements sample_host
levels = element (int (pos 5)) (element (int (negsuc 1)) no_elements)

levels-Typed : AllElements sample_host (λ w. Typed sample_host (prim s16) w) levels
unfolding AllElements Typed PrimTyped IntTyped fits_in_width
levels-Typed = ((pos 5, refl, refl), ((negsuc 1, refl, refl), tt))

-- `-21846` is the integer of two bytes 0xaa.
bulk_bytes :
    load_list_from_range sample_host (λ c p. load sample_host (prim s16) c p) (prim s16) start 4 2
    ≡ ok (array (element (int (negsuc 21845)) (element (int (negsuc 21845)) no_elements)), start)
unfolding list_code
bulk_bytes = refl

unaligned_list :
    load_list_from_range sample_host (λ c p. load sample_host (prim s16) c p) (prim s16) start 5 2
    ≡ err (trap "misaligned list pointer")
unfolding list_code
unaligned_list = refl

outside_list :
    load_list_from_range sample_host (λ c p. load sample_host (prim s16) c p) (prim s16) start 4 7
    ≡ err (trap "list out of bounds")
unfolding list_code
outside_list = refl

realloc_outside :
    store_list_into_range sample_host
      (λ c v p. store sample_host (prim u32) c v p)
      (prim u32)
      start
      (element (int (pos 1)) (element (int (pos 2)) (element (int (pos 3)) no_elements)))
    ≡ err (trap "realloc return: beyond end of memory")
unfolding list_code
realloc_outside = refl

laid_s16 : compute_layout PtrType.i32 (prim s16) ≡ ok (square (prim s16) 2)
unfolding list_code
laid_s16 = refl

load_list_from_valid_range-loop_example :
    load_list_from_valid_range sample_host
      (λ c p. load sample_host (prim s16) c p)
      (prim s16)
      start
      4
      3
    ≡ load_remaining sample_host (λ c p. load sample_host (prim s16) c p) start 4 2 3 none
load_list_from_valid_range-loop_example =
    load_list_from_valid_range-loop sample_host (prim s16) start 4 3 {l = square (prim s16) 2}
      laid_s16 refl (omega arith)

store_list_into_valid_range-loop_example :
    store_list_into_valid_range sample_host
      (λ c v p. store sample_host (prim s16) c v p)
      (prim s16)
      start
      levels
      4
    ≡ store_elements sample_host (λ c v p. store sample_host (prim s16) c v p) start levels 4 2
unfolding element_count
store_list_into_valid_range-loop_example =
    store_list_into_valid_range-loop sample_host (prim s16) start levels 4 {l = square (prim s16) 2}
      levels-Typed laid_s16 refl (omega arith)

abbrev pointers : Layout
pointers = record {
  d = list (prim s16) none;
  align = 4;
  size = 8;
  field_offsets = none;
  disc_size = 0;
  payload_offset = 0;
}

load-store-list_example :
    Returns
      (λ stored.
        (stored.state ≡ start.state)
        × ((kept : HostCx sample_host)
            → Kept sample_host stored kept 0 8 8 4
            → load sample_host (list (prim s16) none) kept 0 ≡ ok (array levels, kept)))
      (store sample_host (list (prim s16) none) start (array levels) 0)
unfolding list_code
load-store-list_example =
    load-store-list sample_host (prim s16) start start levels 0 8 {p = pointers}
      {l = square (prim s16) 2} levels-Typed refl refl (omega arith) refl (omega arith)
      (refl, refl, omega arith, refl, omega arith) (inr (omega arith)) (omega arith) (omega arith)

store_list_into_range-checked_example :
    (l : Layout) × (after : HostCx sample_host) × (compute_layout PtrType.i32 (prim s16) ≡ ok l)
    × (allocate sample_host start l.align (2 * l.size) ≡ ok (8, after))
    × (element_count levels ≡ element_count levels)
    × (2 * l.size ≤ realloc_i32_max)
    × (8 % l.align ≡ 0)
    × (8 + 2 * l.size ≤ after.memory.length)
unfolding list_code
store_list_into_range-checked_example =
    store_list_into_range-checked sample_host (λ c v p. store sample_host (prim s16) c v p)
      (prim s16) start _ levels 8 2 refl

-- A host with an instance, whose state is the flag.
abbrev instance_host : Host samples
instance_host = record sample_host {
  State = Bool;
  realloc = some (λ cx old old_byte_length alignment byte_length. ok (8, cx));
  may_leave = λ s. some s;
  set_may_leave = λ b s. b;
  checkpoint = λ s. ok tt;
  load_other = λ d cx ptr. ok (tt, cx);
  store_other = λ d cx v ptr. ok cx;
  lift_other = λ d cx vs. ok (tt, cx);
  lower_other = λ d cx v. ok ([], cx);
}

abbrev may_leave_start : HostCx instance_host
may_leave_start = record { memory = start.memory; state = true }

reallocate-guarded_example :
    (realloc : Realloc instance_host) × (during : HostCx instance_host) × (instance_host.realloc
      ≡ some realloc)
    × (true ≡ true)
    × (some false ≡ some false)
    × (realloc (leaving instance_host false may_leave_start) 0 0 4 8 ≡ ok (8, during))
    × (some true ≡ some true)
unfolding list_code
reallocate-guarded_example =
    reallocate-guarded instance_host may_leave_start may_leave_start 0 0 4 8 8 {flag = true}
      (λ b s. refl) refl refl
