-- ===== src/Cabi/Table/Tenure.antt =====
-- The tenure of an index tells its successive entries apart (`PreparedCustody` in values.ts relies
-- on it).
use polyengine.Base.{
  ℕ, zero, suc, ◌+◌, ◌≤◌, ◌<◌, ◌≡◌, refl, List, [], ◌∷◌, ◌++◌, ok, >>=-eq-ok, ok_injective, subst,
  arith, ◌==◌, if◌then◌else◌, length, set, lt_of_get_elem?,
}
use polyengine.Cabi.Table.{Table, tenure_at, get, add, remove}
use polyengine.Cabi.Table.Valid.{
  Valid, Added, in_free, behind, add-Added, add-Fills, remove-Clears, AreFree-eq,
}

tenure_at-set :
    (ns : List ℕ) (i j v : ℕ)
    → i < length ns
    → tenure_at (set ns i v) j ≡ (if i == j then v else tenure_at ns j)
tenure_at-set [] i j v h = elim h [ ]
tenure_at-set (n ∷ ns) zero zero v h = refl
tenure_at-set (n ∷ ns) zero (suc j) v h = ground arith
tenure_at-set (n ∷ ns) (suc i) zero v h = ground arith
tenure_at-set (n ∷ ns) (suc i) (suc j) v h = ground (arith, tenure_at-set ns i j v (omega arith))

tenure_at-append :
    (ns : List ℕ) (j : ℕ)
    → tenure_at (ns ++ 1 ∷ []) j ≡ tenure_at ns j + (if length ns == j then 1 else 0)
tenure_at-append [] zero = omega arith
tenure_at-append [] (suc j) = ground arith
tenure_at-append (n ∷ ns) zero = ground arith
tenure_at-append (n ∷ ns) (suc j) = ground (arith, tenure_at-append ns j)

module _ {ℓ} {T : Type ℓ} where
  Added-tenure :
      (t : Table T) (e : T) {i : ℕ} {u : Table T} (j : ℕ)
      → Valid t
      → Added t e i u
      → tenure_at u.tenure j ≡ tenure_at t.tenure j + (if i == j then 1 else 0)
  Added-tenure t e j v (in_free i free f) =
      let lt = lt_of_get_elem? t.array i (AreFree-eq t v f).1 in
      ground (
        arith,
        tenure_at-set t.tenure i j (tenure_at t.tenure i + 1) (omega (arith, lt, v.tenured)),
      )
  Added-tenure t e j v (behind f room) = ground (arith, tenure_at-append t.tenure j, v.tenured)

  remove-tenure :
      (t : Table T) (i : ℕ) {e : T} {u : Table T} → remove t i ≡ ok (e, u) → u.tenure ≡ t.tenure
  unfolding remove
  remove-tenure t i {e} {u} h =
      let (a, _, r) = >>=-eq-ok (get t i) _ h in
      subst (λ p. p.1.tenure ≡ t.tenure) (ok_injective r) refl

  -- What can happen to a table.
  pub data Steps (t : Table T) : Table T → Type ℓ where
    none_taken : Steps t t
    added : {u w : Table T} → Steps t u → (e : T) (i : ℕ) → add u e ≡ ok (i, w) → Steps t w
    removed : {u w : Table T} → Steps t u → (i : ℕ) (e : T) → remove u i ≡ ok (e, w) → Steps t w

  pub Steps-Valid : {t u : Table T} → Valid t → Steps t u → Valid u
  Steps-Valid v none_taken = v
  Steps-Valid v (added s e i h) = (add-Fills _ e (Steps-Valid v s) h).0
  Steps-Valid v (removed s i e h) = (remove-Clears _ i (Steps-Valid v s) h).0

  Steps-tenure :
      {t u : Table T} (j : ℕ) → Valid t → Steps t u → tenure_at t.tenure j ≤ tenure_at u.tenure j
  Steps-tenure j v none_taken = omega arith
  Steps-tenure j v (added {u} s e i h) =
      let w = Steps-Valid v s in
      ground (arith, Steps-tenure j v s, Added-tenure u e j w (add-Added u e w h))
  Steps-tenure j v (removed {u} s i e h) = ground (arith, Steps-tenure j v s, remove-tenure u i h)

  -- When an index that `add` returned is returned by `add` again, after any further additions and
  -- removals, its tenure is larger.
  pub tenure_increases :
      (t : Table T) (e e' : T) (i : ℕ) {u w x : Table T}
      → Valid t
      → add t e ≡ ok (i, u)
      → Steps u w
      → add w e' ≡ ok (i, x)
      → tenure_at u.tenure i < tenure_at x.tenure i
  tenure_increases t e e' i {u} {w} v h s k =
      let vu = (add-Fills t e v h).0 in
      let vw = Steps-Valid vu s in
      ground (arith, Steps-tenure i vu s, Added-tenure w e' i vw (add-Added w e' vw k))
