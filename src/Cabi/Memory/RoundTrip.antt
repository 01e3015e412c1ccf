-- ===== src/Cabi/Memory/RoundTrip.antt =====
-- An integer that fits is read back from where it was stored, and nothing else changes.
use native.Mathlib.Nat.{pow-succ', one-le-pow, mod-eq_of_lt}
use polyengine.Base.{
  ℕ, zero, suc, ◌+◌, ◌*◌, ◌/◌, ◌^◌, ◌≤◌, ◌<◌, ◌≡◌, ◌⊎◌, refl, ap, ◌∙◌, ℤ, pos, negsuc, Bool, true,
  false, ok, assert-eq, Returns, Returns-assert, arith, le→leb, leb→le, lt→ltb,
}
use polyengine.Cabi.Memory.{
  Memory, get_uint, to_word, of_word, load_int_u, load_int_s, fits_in_width, store_int,
}
use polyengine.Cabi.Memory.Bytes.{set_uint-outside, get_uint-set_uint, get_uint-agree}

-- The same but for the `n` bytes at `ptr`.
unfoldable pub SameOutside : Memory → Memory → ℕ → ℕ → Type 0
SameOutside m m' ptr n =
    (m'.length ≡ m.length)
    × (m'.addr_type ≡ m.addr_type)
    × ((i : ℕ) → (i < ptr) ⊎ (ptr + n ≤ i) → m'.byte i ≡ m.byte i)

-- The same in the `n` bytes at `ptr`.
unfoldable pub SameInside : Memory → Memory → ℕ → ℕ → Type 0
SameInside m m' ptr n =
    (m'.length ≡ m.length)
    × (m'.addr_type ≡ m.addr_type)
    × ((i : ℕ) → ptr ≤ i → i < ptr + n → m'.byte i ≡ m.byte i)

-- An integer as it is read, unsigned or signed.
unfoldable pub reads_as : Bool → ℕ → ℕ → ℤ
reads_as true n w = of_word n w
reads_as false n w = pos w

half_word : (n : ℕ) → 0 < n → (0 < 256 ^ n / 2) × (256 ^ n / 2 * 2 ≡ 256 ^ n)
half_word zero h = absurd (omega arith)
half_word (suc n) h = let p = one-le-pow n 256 (omega arith) in rw (pow-succ' 256 n) (omega arith)

to_word-fits :
    (v : ℤ) (n : ℕ) (signed : Bool)
    → 0 < n
    → fits_in_width v n signed ≡ true
    → (to_word n v < 256 ^ n) × (reads_as signed n (to_word n v) ≡ v)
unfolding fits_in_width to_word reads_as of_word
to_word-fits (pos v) n true h f =
    let (p, e) = half_word n h in
    let small : v < 256 ^ n / 2 = let le = leb→le _ _ f in omega arith in
    rw (mod-eq_of_lt {n = v} {m = 256 ^ n} (omega arith), lt→ltb _ _ small) (omega arith, refl)
to_word-fits (negsuc v) n true h f =
    let (p, e) = half_word n h in
    let le = leb→le _ _ f in
    let word = mod-eq_of_lt {n = v} {m = 256 ^ n} (omega arith) in
    rw word (omega arith, grind arith)
to_word-fits (pos v) n false h f =
    let (p, e) = half_word n h in
    let le = leb→le _ _ f in
    rw (mod-eq_of_lt {n = v} {m = 256 ^ n} (omega arith)) (omega arith, refl)
to_word-fits (negsuc v) n false h f = cc

pub store_int-Returns :
    (mem : Memory) (v : ℤ) (ptr n : ℕ) (signed : Bool)
    → 0 < n
    → ptr + n ≤ mem.length
    → fits_in_width v n signed ≡ true
    → Returns
        (λ mem'. SameOutside mem mem' ptr n × (reads_as signed n (get_uint mem'.byte ptr n) ≡ v))
        (store_int mem v ptr n signed)
unfolding store_int SameOutside
store_int-Returns mem v ptr n signed h bound f =
    let (small, back) = to_word-fits v n signed h f in
    Returns-assert _ _ _ _ (le→leb _ _ bound) (
      Returns-assert _ _ _ _ f (
        _,
        refl,
        (
          (refl, refl, λ i. set_uint-outside mem.byte ptr n (to_word n v) i),
          ap (reads_as signed n)
                (get_uint-set_uint mem.byte ptr n (to_word n v) ∙ mod-eq_of_lt small)
              ∙ back,
        ),
      ))

loads-eq :
    (m m' : Memory) (ptr n : ℕ)
    → ptr + n ≤ m.length
    → SameInside m m' ptr n
    → (load_int_u m' ptr n ≡ ok (get_uint m.byte ptr n))
      × (load_int_s m' ptr n ≡ ok (of_word n (get_uint m.byte ptr n)))
unfolding load_int_u load_int_s SameInside
loads-eq m m' ptr n bound (len, _, same) =
    let inside = le→leb (ptr + n) m'.length (omega (arith, len)) in
    let word = get_uint-agree m'.byte m.byte ptr n same in
    (assert-eq _ _ _ inside ∙ ap ok word, assert-eq _ _ _ inside ∙ ap (λ w. ok (of_word n w)) word)

-- An integer that fits its width is stored within bounds without an error. The bytes outside are as
-- before, and it is read back, unsigned or signed as it was stored, from any memory with the
-- same bytes there.
pub load_int-store_int :
    (mem : Memory) (v : ℤ) (ptr n : ℕ) (signed : Bool)
    → 0 < n
    → ptr + n ≤ mem.length
    → fits_in_width v n signed ≡ true
    → Returns
        (λ mem'.
          SameOutside mem mem' ptr n
          × ((m : Memory)
              → SameInside mem' m ptr n
              → (w : ℕ) × (load_int_u m ptr n ≡ ok w)
                × (load_int_s m ptr n ≡ ok (of_word n w))
                × (reads_as signed n w ≡ v)))
        (store_int mem v ptr n signed)
unfolding SameOutside
load_int-store_int mem v ptr n signed h bound f =
    let (mem', e, (outside, back)) = store_int-Returns mem v ptr n signed h bound f in
    (
      mem',
      e,
      (
        outside,
        λ m same.
            let (u, s) = loads-eq mem' m ptr n (omega (arith, outside.0)) same in
            (get_uint mem'.byte ptr n, u, s, back),
      ),
    )
