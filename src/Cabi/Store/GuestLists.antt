-- ===== src/Cabi/Store/GuestLists.antt =====
-- Lists of any length: the elements where the guest's realloc puts them, and their address and number
-- at the place of the list.
use polyengine.Base.{
  ℕ, ◌+◌, ◌-◌, ◌*◌, ◌%◌, ◌^◌, ◌≤◌, ◌<◌, ◌≡◌, ◌==◌, ==_iff, ◌⊎◌, refl, sym, subst, ap, ◌∙◌, none,
  not, false, ltb, ok, Returns, le→leb, arith,
}
use polyengine.Cabi.Types.{PtrType}
use polyengine.Cabi.Despecialized.{DespecializedType, list}
use polyengine.Cabi.Layout.{Layout, compute_layout, align_to, ptr_size}
use polyengine.Cabi.Layout.Align.{align_to-aligned}
use polyengine.Cabi.Layout.Lawful.{compute_layout-Lawful}
use polyengine.Cabi.Memory.Pointers.{pointers-kept, store_ptr-both}
use polyengine.Cabi.Memory.RoundTrip.{SameOutside, SameInside}
use polyengine.Cabi.Float.{Floats}
use polyengine.Cabi.Value.{array, element_count, Host}
use polyengine.Cabi.Bulk.{HostElements}
use polyengine.Cabi.Lists.{
  max_list_byte_length, load_list_from_range, load_list, allocate, store_list_into_range,
  elements_of, store_elements_of, store_list,
}
use polyengine.Cabi.Access.{HostCx}
use polyengine.Cabi.Store.{store, load}
use polyengine.Cabi.Store.Typing.{Typed, AllElements}
use polyengine.Cabi.Store.Scalars.{Holds}
use polyengine.Cabi.Store.Places.{mk_layout-size, place-ok}
use polyengine.Cabi.Store.ListValues.{store_range-StoresList}
use polyengine.Cabi.Store.RoundTrip.{load-store}

pub not_ltb : (m n : ℕ) → n ≤ m → ltb m n ≡ false
not_ltb m n h = ground arith

pub not_unequal : (m n : ℕ) → m ≡ n → not (m == n) ≡ false
not_unequal m n h = rw ((==_iff m n).1 h) refl

pointers_size :
    (addr : PtrType) (t : DespecializedType) {p : Layout}
    → compute_layout addr (list t none) ≡ ok p
    → p.size ≡ 2 * ptr_size addr
unfolding compute_layout
pointers_size addr t e = mk_layout-size (list t none) (ptr_size addr) (2 * ptr_size addr) none 0 0 e

module _ {fl : Floats} (host : Host fl) where
  -- The guest's realloc gives room for the elements, at an aligned address, in a memory that it may have
  -- made longer.
  abbrev pub Allocates : HostCx host → Layout → ℕ → ℕ → HostCx host → Type 0
  Allocates cx l n begin cx' =
      (allocate host cx l.align (n * l.size) ≡ ok (begin, cx'))
      × (cx'.memory.addr_type ≡ cx.memory.addr_type)
      × (cx.memory.length ≤ cx'.memory.length)
      × (begin % l.align ≡ 0)
      × (begin + n * l.size ≤ cx'.memory.length)

  abbrev pub InRange :
      DespecializedType → HostElements host → ℕ → ℕ → HostCx host → HostCx host → Type 0
  InRange t vs begin size cx' cx'' =
      Holds host
        (λ kept. load_list_from_range host (λ c p. load host t c p) t kept begin (element_count vs))
        (array vs) cx' begin size cx''

  store_list_into_range-Returns :
      (t : DespecializedType) (cx cx' : HostCx host) (vs : HostElements host) (begin : ℕ)
      (l : Layout)
      → AllElements host (λ w. Typed host t w) vs
      → compute_layout cx.memory.addr_type t ≡ ok l
      → element_count vs * l.size ≤ max_list_byte_length
      → Allocates cx l (element_count vs) begin cx'
      → (cx'' : HostCx host) × (store_list_into_range host (λ c v p. store host t c v p) t cx vs
          ≡ ok ((begin, element_count vs), cx''))
        × InRange t vs begin (element_count vs * l.size) cx' cx''
  unfolding store_list_into_range load_list_from_range Holds SameOutside SameInside
  store_list_into_range-Returns t cx cx' vs begin l typed e short
        (ea, addr, longer, aligned, inside) =
      let laid : compute_layout cx'.memory.addr_type t ≡ ok l =
        ap (λ a. compute_layout a t) addr ∙ e in
      let (cx'', stored, (s, o, back)) =
        store_range-StoresList host t l cx' vs begin
          (λ c w p h fits. load-store host t c w p h fits.0 fits.1 fits.2) typed
          (laid, aligned, inside) in
      let fixed =
        align_to-aligned begin l.align (compute_layout-Lawful cx.memory.addr_type t e).aligned
          aligned in
      let few = le→leb (element_count vs * l.size) (2 ^ 32 - 1) (omega arith) in
      let whole = not_unequal begin (align_to begin l.align) (sym fixed) in
      let within = not_ltb cx'.memory.length (begin + element_count vs * l.size) inside in
      (
        cx'',
        rw (e, few, ea, whole, within, stored) refl,
        (
          s,
          o,
          λ kept i.
              let laid' : compute_layout kept.memory.addr_type t ≡ ok l =
                ap (λ a. compute_layout a t) (i.1 ∙ o.1) ∙ laid in
              let short' = not_ltb max_list_byte_length (element_count vs * l.size) short in
              let aligned' = not_unequal (begin % l.align) 0 aligned in
              let within' =
                not_ltb kept.memory.length (begin + element_count vs * l.size)
                  (omega (arith, i.0, o.0, inside)) in
              rw (laid', short', aligned', within') (back kept i),
        ),
      )

  -- The pointers and the elements are kept.
  abbrev pub Kept : HostCx host → HostCx host → ℕ → ℕ → ℕ → ℕ → Type 0
  Kept cx kept ptr size begin bytes =
      SameInside cx.memory kept.memory ptr size × SameInside cx.memory kept.memory begin bytes

  -- A list of values that fit in their own bytes, at an aligned place with room for its two pointers,
  -- not longer than lists may be, is stored without an error, if the guest's realloc gives room
  -- apart from that place at an aligned address, and the address and the number of elements are
  -- pointers. The list is loaded from any memory that keeps the bytes of the two pointers and of
  -- the elements, and the host's state is as realloc left it.
  pub load-store-list :
      (t : DespecializedType) (cx cx' : HostCx host) (vs : HostElements host) (ptr begin : ℕ)
      {p l : Layout}
      → AllElements host (λ w. Typed host t w) vs
      → compute_layout cx.memory.addr_type (list t none) ≡ ok p
      → ptr % p.align ≡ 0
      → ptr + p.size ≤ cx.memory.length
      → compute_layout cx.memory.addr_type t ≡ ok l
      → element_count vs * l.size ≤ max_list_byte_length
      → Allocates cx l (element_count vs) begin cx'
      → (begin + element_count vs * l.size ≤ ptr) ⊎ (ptr + p.size ≤ begin)
      → begin < 256 ^ ptr_size cx.memory.addr_type
      → element_count vs < 256 ^ ptr_size cx.memory.addr_type
      → Returns
          (λ stored.
            (stored.state ≡ cx'.state)
            × ((kept : HostCx host)
                → Kept stored kept ptr p.size begin (element_count vs * l.size)
                → load host (list t none) kept ptr ≡ ok (array vs, kept)))
          (store host (list t none) cx (array vs) ptr)
  unfolding store load store_list load_list store_elements_of elements_of Holds SameOutside
      SameInside
  load-store-list t cx cx' vs ptr begin {p} {l} typed ep aligned inside e short room apart hb hn =
      let n = element_count vs in
      let ps = ptr_size cx.memory.addr_type in
      let size : p.size ≡ 2 * ps = pointers_size cx.memory.addr_type t ep in
      let (cx'', stored, (s, o, back)) =
        store_list_into_range-Returns t cx cx' vs begin l typed e short room in
      let addr : cx''.memory.addr_type ≡ cx.memory.addr_type = o.1 ∙ room.1 in
      let (m₁, m₂, e₁, e₂, o₂, read) =
        store_ptr-both cx''.memory begin n ptr ps (ap ptr_size addr) hb hn
          (omega (arith, inside, size, o.0, room.2)) in
      let checks =
        place-ok host "store misaligned" "store OOB" (list t none) cx ptr ep aligned inside in
      (
        record cx'' { memory = m₂ },
        rw (checks, stored, e₁, e₂) refl,
        (
          s,
          λ kept k.
              let again =
                place-ok host "load misaligned" "load OOB" (list t none) kept ptr
                  (ap (λ a. compute_layout a (list t none)) (k.0.1 ∙ o₂.1 ∙ addr) ∙ ep) aligned
                  (omega (arith, k.0.0, o₂.0, o.0, room.2, inside)) in
              let (r₁, r₂) =
                read kept.memory (subst (λ s. SameInside m₂ kept.memory ptr s) size k.0) in
              let elements = back kept (
                pointers-kept cx''.memory m₂ begin (n * l.size) ptr (2 * ps) o₂
                  (subst (λ s. (begin + n * l.size ≤ ptr) ⊎ (ptr + s ≤ begin)) size apart)
                  kept.memory k.1) in
              rw (again, r₁, r₂) elements,
        ),
      )
