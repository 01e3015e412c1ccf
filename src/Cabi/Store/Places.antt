-- ===== src/Cabi/Store/Places.antt =====
-- The checks of `load` and `store` at the place of a type, and the types without parts.
use polyengine.Base.{
  ℕ, ◌+◌, ◌%◌, ◌≤◌, ◌≡◌, refl, sym, subst, ap, ◌∙◌, Option, none, List, String, Result, ok,
  ok_injective, ◌>>=◌, >>=-eq-ok, assert-eq-ok, Returns, arith, length,
}
use polyengine.Cabi.Types.{PtrType, PrimKind, bool, s8, u8, s16, u16, s64, u64, f64, string}
use polyengine.Cabi.Despecialized.{DespecializedType, prim, flags}
use polyengine.Cabi.Layout.{
  Layout, mk_layout, prim_layout, flags_layout, elem_size_flags, compute_layout,
}
use polyengine.Cabi.Memory.RoundTrip.{SameOutside, SameInside}
use polyengine.Cabi.Float.{Floats}
use polyengine.Cabi.Value.{Host}
use polyengine.Cabi.Access.{
  HostValue, HostCx, place, store_prim, store_flags, load_prim, load_flags,
}
use polyengine.Cabi.Store.{store, load}
use polyengine.Cabi.Store.Typing.{PrimTyped, Typed}
use polyengine.Cabi.Store.Scalars.{Holds, width, store_prim-StoresPrim, store_flags-Holds}

pub mk_layout-size :
    (d : DespecializedType) (align size : ℕ) (offsets : Option (List ℕ)) (disc_size payload : ℕ)
    {l : Layout}
    → mk_layout d align size offsets disc_size payload ≡ ok l
    → l.size ≡ size
unfolding mk_layout
mk_layout-size d align size offsets disc_size payload e =
    sym (ap (λ l. l.size) (ok_injective (assert-eq-ok _ _ _ e).1))

flags_layout-size :
    (ls : List String) {l : Layout}
    → flags_layout ls ≡ ok l
    → elem_size_flags (length ls) ≡ ok l.size
unfolding flags_layout
flags_layout-size ls e =
    let (a, ea, more) = >>=-eq-ok (elem_size_flags (length ls)) _ e in
    let (s, es, made) = >>=-eq-ok (elem_size_flags (length ls)) _ more in
    es ∙ ap ok (sym (mk_layout-size _ a s none 0 0 made))

module _ {fl : Floats} (host : Host fl) where
  pub place-ok :
      (misaligned outside : String) (d : DespecializedType) (cx : HostCx host) (ptr : ℕ)
      {l : Layout}
      → compute_layout cx.memory.addr_type d ≡ ok l
      → ptr % l.align ≡ 0
      → ptr + l.size ≤ cx.memory.length
      → place host misaligned outside d cx ptr ≡ ok l
  unfolding place
  place-ok misaligned outside d cx ptr {l} e aligned inside = rw e (ground arith)

  prim_layout-size :
      (d : DespecializedType) (addr : PtrType) (p : PrimKind) (v : HostValue host) {l : Layout}
      → PrimTyped host p v
      → prim_layout d addr p ≡ ok l
      → l.size ≡ width host p
  unfolding prim_layout width PrimTyped
  prim_layout-size d addr bool v h e = mk_layout-size d 1 1 none 0 0 e
  prim_layout-size d addr s8 v h e = mk_layout-size d 1 1 none 0 0 e
  prim_layout-size d addr u8 v h e = mk_layout-size d 1 1 none 0 0 e
  prim_layout-size d addr s16 v h e = mk_layout-size d 2 2 none 0 0 e
  prim_layout-size d addr u16 v h e = mk_layout-size d 2 2 none 0 0 e
  prim_layout-size d addr s64 v h e = mk_layout-size d 8 8 none 0 0 e
  prim_layout-size d addr u64 v h e = mk_layout-size d 8 8 none 0 0 e
  prim_layout-size d addr f64 v h e = mk_layout-size d 8 8 none 0 0 e
  prim_layout-size d addr string v h e = elim h [ ]
  prim_layout-size d addr _ v h e = mk_layout-size d 4 4 none 0 0 e

  -- What storing a value and loading it is to do.
  abbrev pub Stores : DespecializedType → HostCx host → HostValue host → ℕ → ℕ → Type 0
  Stores d cx v ptr size =
      Returns (Holds host (λ kept. load host d kept ptr) v cx ptr size) (store host d cx v ptr)

  abbrev pub Fits : DespecializedType → HostCx host → ℕ → Layout → Type 0
  Fits d cx ptr l =
      (compute_layout cx.memory.addr_type d ≡ ok l)
      × (ptr % l.align ≡ 0)
      × (ptr + l.size ≤ cx.memory.length)

  -- The checks of `load` pass on any memory that keeps the bytes.
  place_kept :
      (misaligned outside : String) (d : DespecializedType) (cx cx' kept : HostCx host) (ptr : ℕ)
      (l : Layout)
      → Fits d cx ptr l
      → SameOutside cx.memory cx'.memory ptr l.size
      → SameInside cx'.memory kept.memory ptr l.size
      → place host misaligned outside d kept ptr ≡ ok l
  unfolding SameOutside SameInside
  place_kept misaligned outside d cx cx' kept ptr l (e, aligned, inside) o i =
      place-ok misaligned outside d kept ptr (ap (λ a. compute_layout a d) (i.1 ∙ o.1) ∙ e) aligned
        (omega (arith, i.0, o.0))

  -- From the body that follows the checks to the whole.
  pub store_checked :
      (d : DespecializedType) (cx : HostCx host) (v : HostValue host) (ptr : ℕ) (l : Layout)
      (body : Layout → Result (HostCx host))
      (reader : Layout → HostCx host → Result (HostValue host × HostCx host))
      → (store host d cx v ptr ≡ (place host "store misaligned" "store OOB" d cx ptr >>= body))
      → ((kept : HostCx host)
          → load host d kept ptr
            ≡ (place host "load misaligned" "load OOB" d kept ptr >>= λ m. reader m kept))
      → Fits d cx ptr l
      → Returns (Holds host (reader l) v cx ptr l.size) (body l)
      → Stores d cx v ptr l.size
  unfolding Holds
  store_checked d cx v ptr l body reader stored loaded fits (cx', e, (s, o, back)) =
      let checks = place-ok "store misaligned" "store OOB" d cx ptr fits.0 fits.1 fits.2 in
      (
        cx',
        stored ∙ ap (λ r. r >>= body) checks ∙ e,
        (
          s,
          o,
          λ kept i.
              let again = place_kept "load misaligned" "load OOB" d cx cx' kept ptr l fits o i in
              loaded kept ∙ ap (λ r. r >>= λ m. reader m kept) again ∙ back kept i,
        ),
      )

  pub store-prim :
      (p : PrimKind) (cx : HostCx host) (v : HostValue host) (ptr : ℕ) (l : Layout)
      → PrimTyped host p v
      → Fits (prim p) cx ptr l
      → Stores (prim p) cx v ptr l.size
  unfolding store load compute_layout
  store-prim p cx v ptr l h fits =
      let size = prim_layout-size (prim p) cx.memory.addr_type p v h fits.0 in
      store_checked (prim p) cx v ptr l (λ _. store_prim host p cx v ptr)
        (λ _ kept. load_prim host p kept ptr) refl (λ kept. refl) fits
        (subst
          (λ n.
            Returns (Holds host (λ kept. load_prim host p kept ptr) v cx ptr n)
              (store_prim host p cx v ptr))
          (sym size) (store_prim-StoresPrim host p cx v ptr h (omega (arith, size, fits.2))))

  pub store-flags :
      (ls : List String) (cx : HostCx host) (v : HostValue host) (ptr : ℕ) (l : Layout)
      → Typed host (flags ls) v
      → Fits (flags ls) cx ptr l
      → Stores (flags ls) cx v ptr l.size
  unfolding store load compute_layout Typed
  store-flags ls cx v ptr l (ms, e, canonical) fits =
      let size = flags_layout-size ls fits.0 in
      store_checked (flags ls) cx v ptr l (λ _. store_flags host cx v ptr ls)
        (λ _ kept. load_flags host kept ptr ls) refl (λ kept. refl) fits
        (rw e (store_flags-Holds host cx ms ls ptr size fits.2 canonical))
