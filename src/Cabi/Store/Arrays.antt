-- ===== src/Cabi/Store/Arrays.antt =====
-- The elements of a list, stored one after the other and loaded.
use native.Mathlib.Nat.{add-mod-mod}
use polyengine.Base.{ℕ, suc, ◌+◌, ◌*◌, ◌%◌, ◌≤◌, ◌≡◌, refl, sym, ap, ◌∙◌, ok, ◌>>=◌, Returns, arith}
use polyengine.Cabi.Despecialized.{DespecializedType}
use polyengine.Cabi.Layout.{Layout, compute_layout}
use polyengine.Cabi.Memory.RoundTrip.{SameOutside}
use polyengine.Cabi.Float.{Floats}
use polyengine.Cabi.Value.{no_elements, element, element_count, Host}
use polyengine.Cabi.Bulk.{HostElements}
use polyengine.Cabi.Lists.{load_elements, store_elements}
use polyengine.Cabi.Access.{HostValue, HostCx}
use polyengine.Cabi.Store.{store, load}
use polyengine.Cabi.Store.Typing.{Typed, AllElements}
use polyengine.Cabi.Store.Scalars.{Holds}
use polyengine.Cabi.Store.Places.{Stores, Fits}
use polyengine.Cabi.Store.Ranges.{SameOutside-refl, Holds-both}

pub add-aligned : (ptr size a : ℕ) → ptr % a ≡ 0 → size % a ≡ 0 → (ptr + size) % a ≡ 0
add-aligned ptr size a h k =
    let same : (ptr + 0) % a ≡ ptr % a = ap (λ p. p % a) (omega arith) in
    sym (add-mod-mod ptr size a) ∙ ap (λ s. (ptr + s) % a) k ∙ same ∙ h

module _ {fl : Floats} (host : Host fl) where
  -- The elements of a type are stored and loaded, each at a place for the layout of the type.
  abbrev pub StoresEach : DespecializedType → Layout → Type 0
  StoresEach t l =
      (cx : HostCx host) (v : HostValue host) (ptr : ℕ)
      → Typed host t v
      → Fits host t cx ptr l
      → Stores host t cx v ptr l.size

  -- There is room for `n` elements.
  abbrev pub FitsAll : DespecializedType → HostCx host → ℕ → ℕ → Layout → Type 0
  FitsAll t cx ptr n l =
      (compute_layout cx.memory.addr_type t ≡ ok l)
      × (ptr % l.align ≡ 0)
      × (ptr + n * l.size ≤ cx.memory.length)

  abbrev pub StoresAll : DespecializedType → HostCx host → HostElements host → ℕ → ℕ → Type 0
  StoresAll t cx vs ptr size =
      Returns
        (Holds host
          (λ kept. load_elements host (λ c p. load host t c p) kept ptr size (element_count vs)) vs
          cx ptr (element_count vs * size))
        (store_elements host (λ c v p. store host t c v p) cx vs ptr size)

  pub store_elements-StoresAll :
      (t : DespecializedType) (l : Layout)
      → l.size % l.align ≡ 0
      → StoresEach t l
      → (vs : HostElements host) (cx : HostCx host) (ptr : ℕ)
      → AllElements host (λ w. Typed host t w) vs
      → FitsAll t cx ptr (element_count vs) l
      → StoresAll t cx vs ptr l.size
  unfolding AllElements element_count load_elements store_elements Holds SameOutside
  store_elements-StoresAll t l whole each no_elements cx ptr typed fits =
      (cx, refl, (refl, SameOutside-refl host cx.memory _ _, λ kept i. refl))
  store_elements-StoresAll t l whole each (element v vs) cx ptr (h, hs) (e, aligned, inside) =
      let (cx', stored, held) = each cx v ptr h (e, aligned, omega arith) in
      let (cx'', stored', held') =
        store_elements-StoresAll t l whole each vs cx' (ptr + l.size) hs (
          ap (λ a. compute_layout a t) held.1.1 ∙ e,
          add-aligned ptr l.size l.align aligned whole,
          omega (arith, held.1.0),
        ) in
      (
        cx'',
        ap
              (λ r. r >>= λ c.
                store_elements host (λ c v p. store host t c v p) c vs (ptr + l.size) l.size)
              stored
            ∙ stored',
        Holds-both host cx cx' cx'' ptr (suc (element_count vs) * l.size) ptr l.size (ptr + l.size)
            (element_count vs * l.size) _ (element v vs) held held' (omega arith)
            (λ kept r r'. rw (r, r') refl),
      )
