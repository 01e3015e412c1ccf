-- ===== src/Cabi/Store/ListValues.antt =====
-- Lists in linear memory, stored and loaded.
use polyengine.Base.{
  ℕ, ◌*◌, ◌%◌, ◌≡◌, ==_iff, refl, sym, subst, ap, ◌∙◌, none, some, Option, List, ok, ok_injective,
  >>=-eq-ok, assert-eq-ok, assert-eq, Returns, arith,
}
use polyengine.Cabi.Types.{PtrType}
use polyengine.Cabi.Despecialized.{DespecializedType, list}
use polyengine.Cabi.Layout.{Layout, mk_layout, compute_layout}
use polyengine.Cabi.Layout.Lawful.{compute_layout-Lawful}
use polyengine.Cabi.Memory.RoundTrip.{SameOutside, SameInside}
use polyengine.Cabi.Float.{Floats}
use polyengine.Cabi.Value.{array, element_count, Host}
use polyengine.Cabi.Bulk.{HostElements}
use polyengine.Cabi.Lists.{
  load_remaining, load_list_from_valid_range, load_list, store_list_into_valid_range, elements_of,
  store_elements_of, store_list,
}
use polyengine.Cabi.Access.{HostValue, HostCx}
use polyengine.Cabi.Store.{store, load}
use polyengine.Cabi.Store.Typing.{Typed, AllElements}
use polyengine.Cabi.Store.Scalars.{Holds}
use polyengine.Cabi.Store.Places.{mk_layout-size, Stores, Fits, store_checked}
use polyengine.Cabi.Store.Arrays.{StoresEach, FitsAll, store_elements-StoresAll}
use polyengine.Cabi.Store.BulkLoad.{load_list_from_valid_range-loop}
use polyengine.Cabi.Store.BulkKinds.{store_list_into_valid_range-loop}

mk_layout-align :
    (d : DespecializedType) (align size : ℕ) (offsets : Option (List ℕ)) (disc_size payload : ℕ)
    {l : Layout}
    → mk_layout d align size offsets disc_size payload ≡ ok l
    → l.align ≡ align
unfolding mk_layout
mk_layout-align d align size offsets disc_size payload e =
    sym (ap (λ l. l.align) (ok_injective (assert-eq-ok _ _ _ e).1))

-- The layout of a list of fixed length is that of its elements, repeated.
pub list_layout :
    (addr : PtrType) (t : DespecializedType) (n : ℕ) {l : Layout}
    → compute_layout addr (list t (some n)) ≡ ok l
    → (f : Layout) × (compute_layout addr t ≡ ok f) × (l.align ≡ f.align) × (l.size ≡ n * f.size)
unfolding compute_layout
list_layout addr t n e =
    let (f, ef, made) = >>=-eq-ok (compute_layout addr t) _ e in
    (
      f,
      ef,
      mk_layout-align _ f.align (n * f.size) none 0 0 made,
      mk_layout-size _ f.align _ none 0 0 made,
    )

module _ {fl : Floats} (host : Host fl) where
  abbrev pub StoresList : DespecializedType → HostCx host → HostElements host → ℕ → ℕ → Type 0
  StoresList t cx vs ptr size =
      Returns
        (Holds host
          (λ kept.
            load_list_from_valid_range host (λ c p. load host t c p) t kept ptr (element_count vs))
          (array vs) cx ptr (element_count vs * size))
        (store_list_into_valid_range host (λ c v p. store host t c v p) t cx vs ptr)

  pub store_range-StoresList :
      (t : DespecializedType) (l : Layout) (cx : HostCx host) (vs : HostElements host) (ptr : ℕ)
      → StoresEach host t l
      → AllElements host (λ w. Typed host t w) vs
      → FitsAll host t cx ptr (element_count vs) l
      → StoresList t cx vs ptr l.size
  unfolding Holds SameOutside SameInside load_remaining
  store_range-StoresList t l cx vs ptr each typed (e, aligned, inside) =
      let whole = (compute_layout-Lawful cx.memory.addr_type t e).whole in
      let (cx', stored, (s, o, back)) =
        store_elements-StoresAll host t l whole each vs cx ptr typed (e, aligned, inside) in
      (
        cx',
        store_list_into_valid_range-loop host t cx vs ptr typed e aligned inside ∙ stored,
        (
          s,
          o,
          λ kept i.
              load_list_from_valid_range-loop host t kept ptr (element_count vs)
                (ap (λ a. compute_layout a t) (i.1 ∙ o.1) ∙ e) aligned (omega (arith, i.0, o.0))
              ∙ rw (back kept i) refl,
        ),
      )

  held_list :
      (t : DespecializedType) (n : ℕ) (cx cx' : HostCx host) (v : HostValue host)
      (vs : HostElements host) (ptr element_size size : ℕ)
      → v ≡ array vs
      → element_count vs ≡ n
      → size ≡ n * element_size
      → Holds host
          (λ kept.
            load_list_from_valid_range host (λ c p. load host t c p) t kept ptr (element_count vs))
          (array vs)
          cx
          ptr
          (element_count vs * element_size)
          cx'
      → Holds host
          (λ kept. load_list host (λ c p. load host t c p) t (some n) kept ptr)
          v
          cx
          ptr
          size
          cx'
  unfolding load_list
  held_list t n cx cx' v vs ptr element_size size ev count e held = rw (ev, e, sym count) held

  -- A list of fixed length, in its own bytes.
  pub store-list :
      (t : DespecializedType) (n : ℕ) (cx : HostCx host) (v : HostValue host) (ptr : ℕ) (l : Layout)
      → ((f : Layout) → StoresEach host t f)
      → Typed host (list t (some n)) v
      → Fits host (list t (some n)) cx ptr l
      → Stores host (list t (some n)) cx v ptr l.size
  unfolding Typed store load store_list store_elements_of load_list elements_of
  store-list t n cx v ptr l each (vs, ev, count, typed) (e, aligned, inside) =
      let (f, ef, align, size) = list_layout cx.memory.addr_type t n e in
      let (cx', stored, held) =
        store_range-StoresList t f cx vs ptr (each f) typed
          (ef, subst (λ a. ptr % a ≡ 0) align aligned, rw count (omega (arith, inside, size))) in
      store_checked host (list t (some n)) cx v ptr l
        (λ _. store_list host (λ c w p. store host t c w p) t (some n) cx v ptr)
        (λ _ kept. load_list host (λ c p. load host t c p) t (some n) kept ptr) refl (λ kept. refl)
        (e, aligned, inside)
        (
          cx',
          rw ev (
              assert-eq _ _
                (store_list_into_valid_range host (λ c w p. store host t c w p) t cx vs ptr)
                ((==_iff n (element_count vs)).1 (sym count))
              ∙ stored),
          held_list t n cx cx' v vs ptr f.size l.size ev count size held,
        )
