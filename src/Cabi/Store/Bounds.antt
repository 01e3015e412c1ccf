-- ===== src/Cabi/Store/Bounds.antt =====
-- What `load` and `store` have checked when they succeed.
use polyengine.Base.{
  ℕ, ◌+◌, ◌%◌, ◌≤◌, ◌≡◌, ==_iff, leb→le, String, Result, ok, IsOk, ◌⊎◌, inl, inr, assert-eq-ok,
  ◌>>=◌, >>=-eq-ok,
}
use polyengine.Cabi.Despecialized.{
  DespecializedType, prim, error_context, list, record_type, variant, flags, own, borrow, stream,
  future,
}
use polyengine.Cabi.Layout.{Layout, compute_layout}
use polyengine.Cabi.Float.{Floats}
use polyengine.Cabi.Value.{Host}
use polyengine.Cabi.Access.{HostValue, HostCx, place}
use polyengine.Cabi.Store.{store, load}

module _ {fl : Floats} (host : Host fl) where
  -- The type has a layout, and the address is aligned for it and in bounds.
  unfoldable pub InPlace : DespecializedType → HostCx host → ℕ → Type 0
  InPlace d cx ptr =
      (l : Layout) × (compute_layout cx.memory.addr_type d ≡ ok l)
      × (ptr % l.align ≡ 0)
      × (ptr + l.size ≤ cx.memory.length)

  place-InPlace {ℓ} :
      {A : Type ℓ} (misaligned outside : String) (d : DespecializedType) (cx : HostCx host)
      (ptr : ℕ) (body : Layout → Result A) {a : A}
      → (place host misaligned outside d cx ptr >>= body) ≡ ok a
      → InPlace d cx ptr
  unfolding place InPlace
  place-InPlace misaligned outside d cx ptr body e =
      let (l, placed, _) = >>=-eq-ok (place host misaligned outside d cx ptr) body e in
      let (m, laid, checks) = >>=-eq-ok (compute_layout cx.memory.addr_type d) _ placed in
      let (aligned, more) = assert-eq-ok _ _ _ checks in
      let (inside, _) = assert-eq-ok _ _ _ more in
      (m, laid, (==_iff _ _).0 aligned, leb→le _ _ inside)

  load-InPlace :
      (d : DespecializedType) (cx : HostCx host) (ptr : ℕ) {r : HostValue host × HostCx host}
      → load host d cx ptr ≡ ok r
      → InPlace d cx ptr
  unfolding load
  load-InPlace (prim p) cx ptr e = place-InPlace _ _ (prim p) cx ptr _ e
  load-InPlace (record_type fs) cx ptr e = place-InPlace _ _ (record_type fs) cx ptr _ e
  load-InPlace (variant cs) cx ptr e = place-InPlace _ _ (variant cs) cx ptr _ e
  load-InPlace (flags ls) cx ptr e = place-InPlace _ _ (flags ls) cx ptr _ e
  load-InPlace error_context cx ptr e = place-InPlace _ _ error_context cx ptr _ e
  load-InPlace (list t n) cx ptr e = place-InPlace _ _ (list t n) cx ptr _ e
  load-InPlace (own r) cx ptr e = place-InPlace _ _ (own r) cx ptr _ e
  load-InPlace (borrow r) cx ptr e = place-InPlace _ _ (borrow r) cx ptr _ e
  load-InPlace (stream t) cx ptr e = place-InPlace _ _ (stream t) cx ptr _ e
  load-InPlace (future t) cx ptr e = place-InPlace _ _ (future t) cx ptr _ e

  store-InPlace :
      (d : DespecializedType) (cx : HostCx host) (v : HostValue host) (ptr : ℕ) {r : HostCx host}
      → store host d cx v ptr ≡ ok r
      → InPlace d cx ptr
  unfolding store
  store-InPlace (prim p) cx v ptr e = place-InPlace _ _ (prim p) cx ptr _ e
  store-InPlace (record_type fs) cx v ptr e = place-InPlace _ _ (record_type fs) cx ptr _ e
  store-InPlace (variant cs) cx v ptr e = place-InPlace _ _ (variant cs) cx ptr _ e
  store-InPlace (flags ls) cx v ptr e = place-InPlace _ _ (flags ls) cx ptr _ e
  store-InPlace error_context cx v ptr e = place-InPlace _ _ error_context cx ptr _ e
  store-InPlace (list t n) cx v ptr e = place-InPlace _ _ (list t n) cx ptr _ e
  store-InPlace (own r) cx v ptr e = place-InPlace _ _ (own r) cx ptr _ e
  store-InPlace (borrow r) cx v ptr e = place-InPlace _ _ (borrow r) cx ptr _ e
  store-InPlace (stream t) cx v ptr e = place-InPlace _ _ (stream t) cx ptr _ e
  store-InPlace (future t) cx v ptr e = place-InPlace _ _ (future t) cx ptr _ e

  -- A load or a store of any type that succeeds was at an aligned address, in bounds: elsewhere both
  -- fail, whatever the bytes and the value.
  pub load-store-InPlace :
      (d : DespecializedType) (cx : HostCx host) (v : HostValue host) (ptr : ℕ)
      → IsOk (load host d cx ptr) ⊎ IsOk (store host d cx v ptr)
      → InPlace d cx ptr
  load-store-InPlace d cx v ptr (inl (r, e)) = load-InPlace d cx ptr e
  load-store-InPlace d cx v ptr (inr (r, e)) = store-InPlace d cx v ptr e
