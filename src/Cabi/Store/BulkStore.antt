-- ===== src/Cabi/Store/BulkStore.antt =====
-- A list of numbers that is stored in bulk is stored as by the loop over its elements.
use native.Mathlib.Nat.{mod-eq_of_lt}
use polyengine.Base.{
  ℕ, ◌+◌, ◌*◌, ◌%◌, ◌^◌, ◌≤◌, ◌<◌, ◌≡◌, refl, ap, ◌∙◌, Bool, true, false, String, Result, ok, ◌>>=◌,
  le→leb, arith, ℤ, pos,
}
use polyengine.Cabi.Types.{PrimKind, bool}
use polyengine.Cabi.Despecialized.{prim}
use polyengine.Cabi.Layout.{compute_layout, mk_layout, prim_layout, is_power_of_two}
use polyengine.Cabi.Memory.{set_uint, to_word, store_int, fits_in_width}
use polyengine.Cabi.Float.{Floats}
use polyengine.Cabi.Value.{Value, Host, element, no_elements, element_count, truthy, flag_bit}
use polyengine.Cabi.Access.{HostValue, HostCx, store_prim, store_number, store_float, store_word}
use polyengine.Cabi.Bulk.{HostElements, view_int, view_number, set_elements}
use polyengine.Cabi.Lists.{store_elements}
use polyengine.Cabi.Store.{store}
use polyengine.Cabi.Store.Typing.{PrimTyped, IntTyped, AllElements}
use polyengine.Cabi.Store.Places.{place-ok}
use polyengine.Cabi.Store.Arrays.{add-aligned}
use polyengine.Cabi.Store.BulkLoad.{square}

module _ {fl : Floats} (host : Host fl) where
  abbrev with_bytes : HostCx host → (ℕ → ℕ) → HostCx host
  with_bytes cx byte = record cx { memory = record cx.memory { byte = byte } }

  store_word-in :
      (cx : HostCx host) (z : ℤ) (ptr n : ℕ) (signed : Bool)
      → ptr + n ≤ cx.memory.length
      → fits_in_width z n signed ≡ true
      → store_word host cx z ptr n signed
        ≡ ok (with_bytes cx (set_uint cx.memory.byte ptr n (to_word n z)))
  unfolding store_word store_int
  store_word-in cx z ptr n signed inside fits = rw (le→leb _ _ inside, fits) refl

  -- A primitive type of `size` bytes: a typed value has a word, which the store of the value writes.
  abbrev pub WritesWords : PrimKind → ℕ → (HostValue host → Result ℕ) → Type 0
  WritesWords p size write =
      (cx : HostCx host)
      → (compute_layout cx.memory.addr_type (prim p) ≡ ok (square (prim p) size))
        × ((v : HostValue host) (ptr : ℕ)
            → PrimTyped host p v
            → ptr + size ≤ cx.memory.length
            → (w : ℕ) × (write v ≡ ok w)
              × (store_prim host p cx v ptr
                  ≡ ok (with_bytes cx (set_uint cx.memory.byte ptr size w))))

  pub set_elements-loop :
      (p : PrimKind) (size : ℕ) (write : HostValue host → Result ℕ)
      → WritesWords p size write
      → size % size ≡ 0
      → (vs : HostElements host) (cx : HostCx host) (ptr : ℕ)
      → AllElements host (PrimTyped host p) vs
      → ptr % size ≡ 0
      → ptr + element_count vs * size ≤ cx.memory.length
      → (set_elements host write size vs ptr cx.memory.byte >>= λ byte. ok (with_bytes cx byte))
        ≡ store_elements host (λ c v p'. store host (prim p) c v p') cx vs ptr size
  unfolding AllElements element_count set_elements store_elements store
  set_elements-loop p size write words whole no_elements cx ptr typed aligned inside = refl
  set_elements-loop p size write words whole (element v vs) cx ptr (h, hs) aligned inside =
      let (laid, writes) = words cx in
      let (w, ew, es) = writes v ptr h (omega arith) in
      let placed =
        place-ok host "store misaligned" "store OOB" (prim p) cx ptr laid aligned (omega arith) in
      let rest =
        set_elements-loop p size write words whole vs
          (with_bytes cx (set_uint cx.memory.byte ptr size w)) (ptr + size) hs
          (add-aligned ptr size size aligned whole) (omega arith) in
      rw (ew, placed, es) rest

  pub int-WritesWords :
      (p : PrimKind) (size : ℕ) (signed : Bool) (refused : String)
      → ((cx : HostCx host)
          → compute_layout cx.memory.addr_type (prim p) ≡ ok (square (prim p) size))
      → ((v : HostValue host) → PrimTyped host p v → IntTyped host size signed v)
      → ((cx : HostCx host) (v : HostValue host) (ptr : ℕ)
          → store_prim host p cx v ptr ≡ store_number host cx v ptr size signed)
      → WritesWords p size (view_int host size refused)
  unfolding IntTyped view_int store_number
  int-WritesWords p size signed refused laid typed stored cx = (
    laid cx,
    λ v ptr h inside.
        let (z, e, fits) = typed v h in
        (
          to_word size z,
          rw e refl,
          stored cx v ptr ∙ rw e (store_word-in cx z ptr size signed inside fits),
        ),
  )

  word-fits : (n w : ℕ) → w < 256 ^ n → fits_in_width (pos w) n false ≡ true
  unfolding fits_in_width
  word-fits n w h = le→leb _ _ (omega arith)

  pub float-WritesWords :
      (p : PrimKind) (size : ℕ) (encode : fl.Number → ℕ)
      → ((cx : HostCx host)
          → compute_layout cx.memory.addr_type (prim p) ≡ ok (square (prim p) size))
      → ((v : HostValue host)
          → PrimTyped host p v
          → (f : fl.Number) × (v ≡ Value.float f) × (encode f < 256 ^ size))
      → ((cx : HostCx host) (v : HostValue host) (ptr : ℕ)
          → store_prim host p cx v ptr ≡ store_float host cx v ptr size encode)
      → WritesWords p size (view_number host encode)
  unfolding view_number store_float to_word
  float-WritesWords p size encode laid typed stored cx = (
    laid cx,
    λ v ptr h inside.
        let (f, e, small) = typed v h in
        let put =
          store_word-in cx (pos (encode f)) ptr size false inside
            (word-fits size (encode f) small) in
        let word =
          ap (λ w. ok (with_bytes cx (set_uint cx.memory.byte ptr size w)))
            (mod-eq_of_lt {n = encode f} {m = 256 ^ size} small) in
        (encode f, rw e refl, stored cx v ptr ∙ rw e (put ∙ word)),
  )

  pub bool-WritesWords : WritesWords bool 1 (λ v. ok (flag_bit (truthy host v)))
  unfolding compute_layout prim_layout mk_layout is_power_of_two PrimTyped store_prim truthy
      flag_bit to_word fits_in_width
  bool-WritesWords cx = (refl, λ v ptr h inside. written v ptr h.0 h.1 inside)
    where
      written :
          (v : HostValue host) (ptr : ℕ) (b : Bool)
          → v ≡ Value.boolean b
          → ptr + 1 ≤ cx.memory.length
          → (w : ℕ) × (ok (flag_bit (truthy host v)) ≡ ok w)
            × (store_prim host bool cx v ptr ≡ ok (with_bytes cx (set_uint cx.memory.byte ptr 1 w)))
      written v ptr true e inside =
          (1, rw e refl, rw e (store_word-in cx (pos 1) ptr 1 false inside refl))
      written v ptr false e inside =
          (0, rw e refl, rw e (store_word-in cx (pos 0) ptr 1 false inside refl))
