-- ===== src/Cabi/Store/BulkKinds.antt =====
-- The kinds of numbers, booleans and bytes that are stored in bulk.
use polyengine.Base.{
  ℕ, ◌+◌, ◌*◌, ◌%◌, ◌≤◌, ◌≡◌, refl, sym, ap, ◌∙◌, subst, Bool, true, false, if◌then◌else◌, none,
  some, Option, Result, ok, ok_injective, ◌>>=◌, >>=-assoc, le→leb, arith,
}
use polyengine.Cabi.Types.{PrimKind, bool, s8, u8, s16, u16, s32, u32, s64, u64, f32, f64, string}
use polyengine.Cabi.Despecialized.{
  DespecializedType, prim, error_context, list, record_type, variant, flags, own, borrow, stream,
  future,
}
use polyengine.Cabi.Layout.{Layout, compute_layout, mk_layout, prim_layout, is_power_of_two}
use polyengine.Cabi.Float.{
  Floats, encode_float_as_i32, encode_float_as_i64, decode-encode32, decode-encode64,
}
use polyengine.Cabi.Value.{Host, element_count}
use polyengine.Cabi.Access.{HostValue, HostCx, store_prim}
use polyengine.Cabi.Bulk.{
  HostElements, bytes_of, view_of, view_int, store_kind, set_elements, set_list, store_view,
  try_store_numeric_list,
}
use polyengine.Cabi.Lists.{store_elements, store_bulk, store_remaining, store_list_into_valid_range}
use polyengine.Cabi.Store.{store}
use polyengine.Cabi.Store.Typing.{Typed, PrimTyped, AllElements}
use polyengine.Cabi.Store.Arrays.{FitsAll}
use polyengine.Cabi.Store.BulkStore.{
  WritesWords, set_elements-loop, int-WritesWords, float-WritesWords, bool-WritesWords,
}

module _ {fl : Floats} (host : Host fl) where
  abbrev pub ViewWrites : PrimKind → Option (ℕ × (HostValue host → Result ℕ)) → Type 0
  ViewWrites p none = Unit
  ViewWrites p (some (size, write)) = WritesWords host p size write × (size % size ≡ 0)

  store_kind-ViewWrites : (p : PrimKind) → ViewWrites p (store_kind host p)
  unfolding store_kind compute_layout prim_layout mk_layout is_power_of_two store_prim PrimTyped
  store_kind-ViewWrites s8 =
      (int-WritesWords host s8 1 true _ (λ cx. refl) (λ v h. h) (λ cx v ptr. refl), refl)
  store_kind-ViewWrites u16 =
      (int-WritesWords host u16 2 false _ (λ cx. refl) (λ v h. h) (λ cx v ptr. refl), refl)
  store_kind-ViewWrites s16 =
      (int-WritesWords host s16 2 true _ (λ cx. refl) (λ v h. h) (λ cx v ptr. refl), refl)
  store_kind-ViewWrites u32 =
      (int-WritesWords host u32 4 false _ (λ cx. refl) (λ v h. h) (λ cx v ptr. refl), refl)
  store_kind-ViewWrites s32 =
      (int-WritesWords host s32 4 true _ (λ cx. refl) (λ v h. h) (λ cx v ptr. refl), refl)
  store_kind-ViewWrites u64 =
      (int-WritesWords host u64 8 false _ (λ cx. refl) (λ v h. h) (λ cx v ptr. refl), refl)
  store_kind-ViewWrites s64 =
      (int-WritesWords host s64 8 true _ (λ cx. refl) (λ v h. h) (λ cx v ptr. refl), refl)
  store_kind-ViewWrites f32 = (
    float-WritesWords host f32 4 (encode_float_as_i32 fl) (λ cx. refl)
        (λ v h. (h.0, h.1, let (back, small) = decode-encode32 fl h.0 h.2 in omega (arith, small)))
        (λ cx v ptr. refl),
    refl,
  )
  store_kind-ViewWrites f64 = (
    float-WritesWords host f64 8 (encode_float_as_i64 fl) (λ cx. refl)
        (λ v h. (h.0, h.1, let (back, small) = decode-encode64 fl h.0 in omega (arith, small)))
        (λ cx v ptr. refl),
    refl,
  )
  store_kind-ViewWrites _ = tt

  u8-WritesWords : WritesWords host u8 1 (view_int host 1 "int store")
  unfolding compute_layout prim_layout mk_layout is_power_of_two store_prim PrimTyped
  u8-WritesWords = int-WritesWords host u8 1 false _ (λ cx. refl) (λ v h. h) (λ cx v ptr. refl)

  -- A list of elements of a type, in place.
  abbrev pub ListIn : DespecializedType → HostCx host → HostElements host → ℕ → Layout → Type 0
  ListIn t cx vs ptr l =
      AllElements host (λ w. Typed host t w) vs × FitsAll host t cx ptr (element_count vs) l

  bulk_or_loop :
      (p : PrimKind) (cx : HostCx host) (vs : HostElements host) (ptr : ℕ) (b : Bool) (size : ℕ)
      (write : HostValue host → Result ℕ) (l : Layout)
      → WritesWords host p size write
      → size % size ≡ 0
      → ListIn (prim p) cx vs ptr l
      → ((if b then set_list host write size cx.memory vs ptr else ok none)
          >>= store_remaining host (λ c v p'. store host (prim p) c v p') cx vs ptr l.size)
        ≡ store_elements host (λ c v p'. store host (prim p) c v p') cx vs ptr l.size
  unfolding store_remaining set_list Typed
  bulk_or_loop p cx vs ptr false size write l words whole fits = refl
  bulk_or_loop p cx vs ptr true size write l words whole (typed, (e, aligned, inside)) =
      let same = ok_injective (sym e ∙ (words cx).0) in
      let at_size : l.size ≡ size = ap (λ l. l.size) same in
      let at_align : l.align ≡ size = ap (λ l. l.align) same in
      let loop =
        set_elements-loop host p size write words whole vs cx ptr typed
          (subst (λ a. ptr % a ≡ 0) at_align aligned)
          (subst (λ s. ptr + element_count vs * s ≤ cx.memory.length) at_size inside) in
      rw at_size (>>=-assoc (set_elements host write size vs ptr cx.memory.byte) _ _ ∙ loop)

  view_or_loop :
      (p : PrimKind) (cx : HostCx host) (vs : HostElements host) (ptr : ℕ)
      (view : Option (ℕ × (HostValue host → Result ℕ))) (l : Layout)
      → ViewWrites p view
      → ListIn (prim p) cx vs ptr l
      → (store_view host cx.memory vs ptr view
          >>= store_remaining host (λ c v p'. store host (prim p) c v p') cx vs ptr l.size)
        ≡ store_elements host (λ c v p'. store host (prim p) c v p') cx vs ptr l.size
  unfolding store_view store_remaining
  view_or_loop p cx vs ptr none l writes fits = refl
  view_or_loop p cx vs ptr (some (size, write)) l (words, whole) fits =
      bulk_or_loop p cx vs ptr (view_of host cx.memory ptr size) size write l words whole fits

  abbrev pub StoredInLoop :
      DespecializedType → HostCx host → HostElements host → ℕ → Layout → Type 0
  StoredInLoop t cx vs ptr l =
      store_list_into_valid_range host (λ c v p. store host t c v p) t cx vs ptr
      ≡ store_elements host (λ c v p. store host t c v p) cx vs ptr l.size

  -- The types that are always stored in a loop.
  no_bulk :
      (t : DespecializedType) (cx : HostCx host) (vs : HostElements host) (ptr : ℕ) (l : Layout)
      → compute_layout cx.memory.addr_type t ≡ ok l
      → store_bulk host cx.memory vs ptr t ≡ ok none
      → StoredInLoop t cx vs ptr l
  unfolding store_list_into_valid_range store_remaining
  no_bulk t cx vs ptr l e bulk = rw (e, bulk) refl

  bulk_kind :
      (p : PrimKind) (cx : HostCx host) (vs : HostElements host) (ptr : ℕ) (l : Layout)
      → ListIn (prim p) cx vs ptr l
      → store_bulk host cx.memory vs ptr (prim p)
        ≡ store_view host cx.memory vs ptr (store_kind host p)
      → StoredInLoop (prim p) cx vs ptr l
  unfolding store_list_into_valid_range
  bulk_kind p cx vs ptr l fits bulk =
      rw (fits.1.0, bulk)
        (view_or_loop p cx vs ptr (store_kind host p) l (store_kind-ViewWrites p) fits)

  -- Bytes and booleans, whose view needs no alignment.
  byte_kind :
      (p : PrimKind) (cx : HostCx host) (vs : HostElements host) (ptr : ℕ) (l : Layout)
      (write : HostValue host → Result ℕ)
      → ListIn (prim p) cx vs ptr l
      → WritesWords host p 1 write
      → store_bulk host cx.memory vs ptr (prim p) ≡ (
          bytes_of cx.memory ptr (element_count vs) >>= λ bytes.
          set_list host write 1 cx.memory vs ptr)
      → StoredInLoop (prim p) cx vs ptr l
  unfolding store_list_into_valid_range bytes_of
  byte_kind p cx vs ptr l write (typed, (e, aligned, inside)) words bulk =
      let size : l.size ≡ 1 = ap (λ l. l.size) (ok_injective (sym e ∙ (words cx).0)) in
      let bytes : ptr + element_count vs * 1 ≤ cx.memory.length =
        subst (λ s. ptr + element_count vs * s ≤ cx.memory.length) size inside in
      let room = le→leb (ptr + element_count vs) cx.memory.length (omega (arith, bytes)) in
      rw (e, bulk, room)
        (bulk_or_loop p cx vs ptr true 1 write l words refl (typed, (e, aligned, inside)))

  -- A list of values of the element type, stored within the memory at an address aligned for its
  -- elements, is stored as by the loop over its elements, whether the bulk copy of numbers,
  -- booleans or bytes is taken or not.
  pub store_list_into_valid_range-loop :
      (t : DespecializedType) (cx : HostCx host) (vs : HostElements host) (ptr : ℕ) {l : Layout}
      → AllElements host (λ w. Typed host t w) vs
      → compute_layout cx.memory.addr_type t ≡ ok l
      → ptr % l.align ≡ 0
      → ptr + element_count vs * l.size ≤ cx.memory.length
      → store_list_into_valid_range host (λ c v p. store host t c v p) t cx vs ptr
        ≡ store_elements host (λ c v p. store host t c v p) cx vs ptr l.size
  unfolding store_bulk try_store_numeric_list store_kind store_view
  store_list_into_valid_range-loop (prim bool) cx vs ptr {l} h e a i =
      byte_kind bool cx vs ptr l _ (h, (e, a, i)) (bool-WritesWords host) refl
  store_list_into_valid_range-loop (prim u8) cx vs ptr {l} h e a i =
      byte_kind u8 cx vs ptr l _ (h, (e, a, i)) u8-WritesWords refl
  store_list_into_valid_range-loop (prim s8) cx vs ptr {l} h e a i =
      bulk_kind s8 cx vs ptr l (h, (e, a, i)) refl
  store_list_into_valid_range-loop (prim u16) cx vs ptr {l} h e a i =
      bulk_kind u16 cx vs ptr l (h, (e, a, i)) refl
  store_list_into_valid_range-loop (prim s16) cx vs ptr {l} h e a i =
      bulk_kind s16 cx vs ptr l (h, (e, a, i)) refl
  store_list_into_valid_range-loop (prim u32) cx vs ptr {l} h e a i =
      bulk_kind u32 cx vs ptr l (h, (e, a, i)) refl
  store_list_into_valid_range-loop (prim s32) cx vs ptr {l} h e a i =
      bulk_kind s32 cx vs ptr l (h, (e, a, i)) refl
  store_list_into_valid_range-loop (prim u64) cx vs ptr {l} h e a i =
      bulk_kind u64 cx vs ptr l (h, (e, a, i)) refl
  store_list_into_valid_range-loop (prim s64) cx vs ptr {l} h e a i =
      bulk_kind s64 cx vs ptr l (h, (e, a, i)) refl
  store_list_into_valid_range-loop (prim f32) cx vs ptr {l} h e a i =
      bulk_kind f32 cx vs ptr l (h, (e, a, i)) refl
  store_list_into_valid_range-loop (prim f64) cx vs ptr {l} h e a i =
      bulk_kind f64 cx vs ptr l (h, (e, a, i)) refl
  store_list_into_valid_range-loop (prim PrimKind.char) cx vs ptr {l} h e a i =
      no_bulk (prim PrimKind.char) cx vs ptr l e refl
  store_list_into_valid_range-loop (prim string) cx vs ptr {l} h e a i =
      no_bulk (prim string) cx vs ptr l e refl
  store_list_into_valid_range-loop error_context cx vs ptr {l} h e a i =
      no_bulk error_context cx vs ptr l e refl
  store_list_into_valid_range-loop (list t m) cx vs ptr {l} h e a i =
      no_bulk (list t m) cx vs ptr l e refl
  store_list_into_valid_range-loop (record_type fs) cx vs ptr {l} h e a i =
      no_bulk (record_type fs) cx vs ptr l e refl
  store_list_into_valid_range-loop (variant cs) cx vs ptr {l} h e a i =
      no_bulk (variant cs) cx vs ptr l e refl
  store_list_into_valid_range-loop (flags ls) cx vs ptr {l} h e a i =
      no_bulk (flags ls) cx vs ptr l e refl
  store_list_into_valid_range-loop (own r) cx vs ptr {l} h e a i =
      no_bulk (own r) cx vs ptr l e refl
  store_list_into_valid_range-loop (borrow r) cx vs ptr {l} h e a i =
      no_bulk (borrow r) cx vs ptr l e refl
  store_list_into_valid_range-loop (stream s) cx vs ptr {l} h e a i =
      no_bulk (stream s) cx vs ptr l e refl
  store_list_into_valid_range-loop (future s) cx vs ptr {l} h e a i =
      no_bulk (future s) cx vs ptr l e refl
