-- ===== src/Cabi/Memory/Pointers.antt =====
-- Pointers in linear memory, and what a store leaves alone.
use polyengine.Base.{
  ℕ, ◌+◌, ◌*◌, ◌^◌, ◌≤◌, ◌<◌, ◌≡◌, ◌⊎◌, sym, ap, subst, ◌∙◌, pos, false, ok, Returns, arith, le→leb,
}
use polyengine.Cabi.Types.{PtrType}
use polyengine.Cabi.Layout.{ptr_size}
use polyengine.Cabi.Memory.{Memory, load_int_u, load_ptr, store_ptr, fits_in_width}
use polyengine.Cabi.Memory.RoundTrip.{SameOutside, SameInside, reads_as, load_int-store_int}

-- A store leaves the bytes of another range alone.
pub SameOutside-SameInside :
    (m m' : Memory) (p n p' n' : ℕ)
    → SameOutside m m' p n
    → (p' + n' ≤ p) ⊎ (p + n ≤ p')
    → SameInside m m' p' n'
unfolding SameOutside SameInside
SameOutside-SameInside m m' p n p' n' (len, addr, same) apart =
    (len, addr, λ i lo hi. same i (omega arith))

-- A range apart from the pointers is kept with what is kept after they are stored.
pub pointers-kept :
    (m m' : Memory) (begin bytes ptr size : ℕ)
    → SameOutside m m' ptr size
    → (begin + bytes ≤ ptr) ⊎ (ptr + size ≤ begin)
    → (kept : Memory) → SameInside m' kept begin bytes
    → SameInside m kept begin bytes
unfolding SameInside
pointers-kept m m' begin bytes ptr size o apart kept i =
    let same = SameOutside-SameInside m m' ptr size begin bytes o apart in
    (i.0 ∙ same.0, i.1 ∙ same.1, λ k lo hi. i.2 k lo hi ∙ same.2 k lo hi)

ptr_size-positive : (a : PtrType) → 0 < ptr_size a
ptr_size-positive PtrType.i32 = omega arith
ptr_size-positive PtrType.i64 = omega arith

-- A pointer is read back where it was stored, from any memory that keeps its bytes.
pub store_ptr-Returns :
    (mem : Memory) (v ptr : ℕ)
    → v < 256 ^ ptr_size mem.addr_type
    → ptr + ptr_size mem.addr_type ≤ mem.length
    → Returns
        (λ mem'.
          SameOutside mem mem' ptr (ptr_size mem.addr_type)
          × ((m : Memory) → SameInside mem' m ptr (ptr_size mem.addr_type) → load_ptr m ptr ≡ ok v))
        (store_ptr mem v ptr)
unfolding load_ptr store_ptr fits_in_width reads_as SameOutside SameInside
store_ptr-Returns mem v ptr small inside =
    let (mem', e, (o, back)) =
      load_int-store_int mem (pos v) ptr (ptr_size mem.addr_type) false
        (ptr_size-positive mem.addr_type) inside (le→leb _ _ (omega arith)) in
    (
      mem',
      e,
      (
        o,
        λ m i.
            let (w, u, s, r) = back m i in
            ap (λ a. load_int_u m ptr (ptr_size a)) (i.1 ∙ o.1) ∙ u ∙ ap ok (pos_injective r),
      ),
    )
  where
    pos_injective : {x y : ℕ} → pos x ≡ pos y → x ≡ y
    pos_injective e = cc

-- Two pointers, one after the other.
pub store_ptr-both :
    (mem : Memory) (v w ptr size : ℕ)
    → ptr_size mem.addr_type ≡ size
    → v < 256 ^ size
    → w < 256 ^ size
    → ptr + 2 * size ≤ mem.length
    → (first : Memory) × (both : Memory) × (store_ptr mem v ptr ≡ ok first)
      × (store_ptr first w (ptr + ptr_size first.addr_type) ≡ ok both)
      × SameOutside mem both ptr (2 * size)
      × ((m : Memory)
          → SameInside both m ptr (2 * size)
          → (load_ptr m ptr ≡ ok v) × (load_ptr m (ptr + ptr_size m.addr_type) ≡ ok w))
unfolding SameOutside SameInside
store_ptr-both mem v w ptr size es hv hw inside =
    let (first, e, (o, back)) =
      store_ptr-Returns mem v ptr (subst (λ s. v < 256 ^ s) (sym es) hv)
        (omega (arith, inside, es)) in
    let es' : ptr_size first.addr_type ≡ size = ap ptr_size o.1 ∙ es in
    let (both, e', (o', back')) =
      store_ptr-Returns first w (ptr + size) (subst (λ s. w < 256 ^ s) (sym es') hw)
        (omega (arith, inside, es', o.0)) in
    (
      first,
      both,
      e,
      rw es' e',
      (o'.0 ∙ o.0, o'.1 ∙ o.1, λ i out. o'.2 i (omega (arith, es')) ∙ o.2 i (omega (arith, es))),
      λ m i. (
        back m (
          i.0 ∙ o'.0,
          i.1 ∙ o'.1,
          λ k lo hi. i.2 k lo (omega (arith, es)) ∙ o'.2 k (omega (arith, es, es')),
        ),
        ap (λ a. load_ptr m (ptr + ptr_size a)) (i.1 ∙ o'.1)
            ∙ ap (λ s. load_ptr m (ptr + s)) es'
            ∙ back' m (i.0, i.1, λ k lo hi. i.2 k (omega arith) (omega (arith, es'))),
      ),
    )
