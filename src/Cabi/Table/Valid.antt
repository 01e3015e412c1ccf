-- ===== src/Cabi/Table/Valid.antt =====
-- The invariant of a table, what `add` and `remove` do to `get`, and when `add` fails.
use native.Mathlib.Decide.{dec_lt}
use polyengine.Base.{
  ℕ, ◌+◌, ◌<◌, ◌≤◌, ◌≡◌, refl, sym, ap, subst, inl, inr, false, Option, none, some, List, [], ◌∷◌,
  ◌++◌, ok, err, >>=-eq-ok, ok_injective, Failure, trap, get_elem?-append_last, ◌∙◌, arith, ltb,
  ltb→lt, ◌==◌, if◌then◌else◌, length, length-append, length-set, get_elem?, set, get_elem?-set,
  get_elem?-append_left, get_elem?-eq-none, lt_of_get_elem?, has, IsDistinct, Bool-cases, ==_iff,
}
use polyengine.Cabi.Table.{
  Table, tenure_at, max_length, empty, entry, get, reuse, add_at, add, remove, live_entries,
  elements,
}
use polyengine.Cabi.Table.Entries.{live_count, live_count-append, live_count-fill, live_count-clear}

module _ {ℓ} {T : Type ℓ} where
  -- The indices name empty slots, of which slot 0 is none.
  abbrev pub AreFree : List (Option T) → List ℕ → Type ℓ
  AreFree es [] = Unit
  AreFree es (i ∷ is) = (0 < i) × (get_elem? es i ≡ some none) × AreFree es is

  pub record Valid (t : Table T) : Type ℓ where
    pub reserved : get_elem? t.array 0 ≡ some none
    pub bounded : length t.array ≤ max_length + 1
    pub tenured : length t.tenure ≡ length t.array
    pub vacant : AreFree t.array t.free
    pub distinct : IsDistinct t.free
    pub counted : live_count t.array + length t.free + 1 ≡ length t.array

  AreFree-fill :
      (es : List (Option T)) (i : ℕ) (v : Option T) (is : List ℕ)
      → i < length es
      → has i is ≡ false
      → AreFree es is
      → AreFree (set es i v) is
  AreFree-fill es i v [] lt out h = tt
  AreFree-fill es i v (j ∷ is) lt out h = (
    h.0,
    rw (get_elem?-set es i j v lt) (ground arith),
    AreFree-fill es i v is lt (ground arith) h.2,
  )

  AreFree-clear :
      (es : List (Option T)) (i : ℕ) (is : List ℕ)
      → i < length es
      → AreFree es is
      → AreFree (set es i none) is
  AreFree-clear es i [] lt h = tt
  AreFree-clear es i (j ∷ is) lt h =
      (h.0, rw (get_elem?-set es i j none lt) (ground arith), AreFree-clear es i is lt h.2)

  -- A live slot is not free.
  has-free :
      (es : List (Option T)) (i : ℕ) {e : T} (is : List ℕ)
      → get_elem? es i ≡ some (some e)
      → AreFree es is
      → has i is ≡ false
  has-free es i [] live h = refl
  has-free es i (j ∷ is) live h = elim (Bool-cases (i == j)) [
    | inl e ↦ let same = (==_iff i j).0 e in cc (live, h.1, ap (get_elem? es) same)
    | inr e ↦ rw e (has-free es i is live h.2)
  ]

  -- The two ways in which an entry is added: to a free slot, or behind the last one.
  abbrev pub reused : Table T → T → ℕ → List ℕ → Table T
  reused t e i free = record {
    array = set t.array i (some e);
    free = free;
    tenure = set t.tenure i (tenure_at t.tenure i + 1);
  }

  abbrev pub appended : Table T → T → Table T
  appended t e = record { array = t.array ++ some e ∷ []; free = []; tenure = t.tenure ++ 1 ∷ [] }

  pub data Added (t : Table T) (e : T) : ℕ → Table T → Type ℓ where
    in_free : (i : ℕ) (free : List ℕ) → t.free ≡ i ∷ free → Added t e i (reused t e i free)
    behind : t.free ≡ [] → length t.array ≤ max_length → Added t e (length t.array) (appended t e)

  add_at-Added :
      (t : Table T) (e : T) (free : List ℕ) {i : ℕ} {u : Table T}
      → t.free ≡ free
      → AreFree t.array free
      → add_at t e free ≡ ok (i, u)
      → Added t e i u
  unfolding add_at reuse
  add_at-Added t e [] {i} {u} f v h = elim (Bool-cases (ltb max_length (length t.array))) [
    | inl full ↦ cc (rw full at h)
    | inr room ↦
        subst (λ p. Added t e p.0 p.1) (ok_injective (rw room at h)) (behind f (ground arith))
  ]
  add_at-Added t e (j ∷ free) f v h =
      subst (λ p. Added t e p.0 p.1) (ok_injective (rw (v.1, reuse) at h)) (in_free j free f)

  pub add-Added :
      (t : Table T) (e : T) {i : ℕ} {u : Table T} → Valid t → add t e ≡ ok (i, u) → Added t e i u
  unfolding add
  add-Added t e v h = add_at-Added t e t.free refl v.vacant h

  pub AreFree-eq : (t : Table T) {free : List ℕ} → Valid t → t.free ≡ free → AreFree t.array free
  AreFree-eq t v f = subst (AreFree t.array) f v.vacant

  -- The slot is the added index, above 0 and within the limit. It was empty, and only it changed.
  abbrev pub Fills : Table T → T → ℕ → Table T → Type ℓ
  Fills t e i u =
      (0 < i)
      × (i ≤ max_length)
      × ((j : ℕ) → get u j ≡ (if i == j then ok e else get t j))
      × (¬ ((a : T) × (get t i ≡ ok a)))

  Added-Fills :
      (t : Table T) (e : T) {i : ℕ} {u : Table T} → Valid t → Added t e i u → Fills t e i u
  unfolding get entry
  Added-Fills t e v (in_free i free f) =
      let w = AreFree-eq t v f in
      let lt = lt_of_get_elem? t.array i w.1 in
      (
        w.0,
        omega (arith, v.bounded),
        λ j. ground (arith, get_elem?-set t.array i j (some e) lt),
        λ (a, h). cc (rw w.1 at h),
      )
  Added-Fills t e v (behind f room) = (
    omega (arith, lt_of_get_elem? t.array 0 v.reserved),
    room,
    λ j. ground (arith, get_elem?-append_last t.array (some e) j),
    λ (a, h). cc (rw (get_elem?-eq-none t.array (length t.array) (omega arith)) at h),
  )

  Added-Valid : (t : Table T) (e : T) {i : ℕ} {u : Table T} → Valid t → Added t e i u → Valid u
  Added-Valid t e v (in_free i free f) =
      let w = AreFree-eq t v f in
      let d = subst IsDistinct f v.distinct in
      let lt = lt_of_get_elem? t.array i w.1 in
      let same = length-set t.array i (some e) in
      record {
        reserved = rw (get_elem?-set t.array i 0 (some e) lt) (ground arith);
        bounded = omega (arith, same, v.bounded);
        tenured = length-set t.tenure i _ ∙ v.tenured ∙ sym same;
        vacant = AreFree-fill t.array i (some e) free lt d.0 w.2;
        distinct = d.1;
        counted = omega (arith, same, v.counted, live_count-fill t.array i e w.1, ap length f);
      }
  Added-Valid t e v (behind f room) =
      let longer = length-append t.array (some e ∷ []) in
      record {
        reserved =
            rw
              (get_elem?-append_left t.array (some e ∷ []) 0 (lt_of_get_elem? t.array 0 v.reserved))
              v.reserved;
        bounded = omega (arith, longer, v.bounded);
        tenured = omega (arith, longer, length-append t.tenure (1 ∷ []), v.tenured);
        vacant = tt;
        distinct = tt;
        counted = omega (arith, longer, v.counted, live_count-append t.array e, ap length f);
      }

  pub empty-Valid : Valid empty
  unfolding empty live_entries
  empty-Valid = record {
    reserved = refl;
    bounded = omega arith;
    tenured = refl;
    vacant = tt;
    distinct = tt;
    counted = refl;
  }

  -- `add` on a valid table leaves it valid. The index that it returns is above 0 and within the
  -- limit, had no entry before, and now holds the entry; no other index changed.
  pub add-Fills :
      (t : Table T) (e : T) {i : ℕ} {u : Table T}
      → Valid t
      → add t e ≡ ok (i, u)
      → Valid u × Fills t e i u
  add-Fills t e v h = let a = add-Added t e v h in (Added-Valid t e v a, Added-Fills t e v a)

  pub entry-eq-ok : (o : Option (Option T)) {e : T} → entry o ≡ ok e → o ≡ some (some e)
  unfolding entry
  entry-eq-ok none h = cc
  entry-eq-ok (some none) h = cc
  entry-eq-ok (some (some a)) h = cc

  abbrev cleared : Table T → ℕ → Table T
  cleared t i = record t { array = set t.array i none; free = i ∷ t.free }

  abbrev Clears : Table T → ℕ → T → Table T → Type ℓ
  Clears t i e u =
      Valid u
      × (get t i ≡ ok e)
      × ((j : ℕ) → get u j ≡ (if i == j then err (trap "table entry empty") else get t j))

  cleared-Clears :
      (t : Table T) (i : ℕ) (e : T) → Valid t → get t i ≡ ok e → Clears t i e (cleared t i)
  unfolding get entry
  cleared-Clears t i e v h =
      let live = entry-eq-ok (get_elem? t.array i) h in
      let lt = lt_of_get_elem? t.array i live in
      let same = length-set t.array i none in
      let pos = elim (dec_lt 0 i) as (λ _. 0 < i) [
        | yes p ↦ p
        | no p ↦
            let zero_i : i ≡ 0 = omega arith in
            cc (subst (λ k. get_elem? t.array k ≡ some (some e)) zero_i live, v.reserved)
      ] in
      (
        record {
          reserved = rw (get_elem?-set t.array i 0 none lt) (ground (arith, v.reserved));
          bounded = omega (arith, same, v.bounded);
          tenured = v.tenured ∙ sym same;
          vacant = (
            pos,
            rw (get_elem?-set t.array i i none lt) (ground arith),
            AreFree-clear t.array i t.free lt v.vacant,
          );
          distinct = (has-free t.array i t.free live v.vacant, v.distinct);
          counted = omega (arith, same, v.counted, live_count-clear t.array i live);
        },
        h,
        λ j. ground (arith, get_elem?-set t.array i j none lt),
      )

  -- `remove` on a valid table leaves it valid. It returns the entry that `get` finds at the index,
  -- which has no entry afterwards; no other index changed.
  pub remove-Clears :
      (t : Table T) (i : ℕ) {e : T} {u : Table T}
      → Valid t
      → remove t i ≡ ok (e, u)
      → Valid u
        × (get t i ≡ ok e)
        × ((j : ℕ) → get u j ≡ (if i == j then err (trap "table entry empty") else get t j))
  unfolding remove
  remove-Clears t i {e} {u} v h =
      let (a, live, r) = >>=-eq-ok (get t i) _ h in
      subst (λ p. Clears t i p.0 p.1) (ok_injective r) (cleared-Clears t i a v live)

  add_at-err :
      (t : Table T) (e : T) (free : List ℕ) {f : Failure}
      → t.free ≡ free
      → AreFree t.array free
      → Valid t
      → add_at t e free ≡ err f
      → (f ≡ trap "table full") × (live_count t.array ≡ max_length)
  unfolding add_at reuse
  add_at-err t e [] p w v h = elim (Bool-cases (ltb max_length (length t.array))) [
    | inl full ↦
        (cc (rw full at h), omega (arith, ltb→lt _ _ full, v.bounded, v.counted, ap length p))
    | inr room ↦ cc (rw room at h)
  ]
  add_at-err t e (j ∷ free) p w v h = cc (rw (w.1, reuse) at h)

  -- On a valid table `add` fails only with the trap "table full", and only when all indices from 1
  -- to the limit hold an entry.
  pub add-err :
      (t : Table T) (e : T) {f : Failure}
      → Valid t
      → add t e ≡ err f
      → (f ≡ trap "table full") × (length (elements t) ≡ max_length)
  unfolding add elements
  add-err t e v h = add_at-err t e t.free refl v.vacant v h
