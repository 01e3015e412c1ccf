-- ===== src/Task/Subtask/Lending.antt =====
-- The count of lends of a handle: a subtask owes one for each time it borrowed, until it delivers.
use polyengine.Base.{
  ℕ, suc, ◌+◌, ◌-◌, true, ◌||◌, Option, none, some, List, [], ◌∷◌, ◌++◌, ◌≡◌, inl, inr, refl, sym,
  ap, subst, ok, ◌==◌, if◌then◌else◌, arith, ◌∙◌,
}
use polyengine.Task.Waitable.{EventCode, is_some}
use polyengine.Task.Subtask.Effects.{
  add_lender-eq, resolve-eq, deliver_resolve-eq, deliver_once-eq, unwind_lenders-eq,
  subtask_event-eq,
}
use polyengine.Task.Subtask.{
  SubtaskState, Subtask, Lends, raise, lower, lower_all, new, resolved, add_lender, resolve,
  deliver_resolve, deliver_once, unwind_lenders, subtask_event, cancelled,
}

-- How often `h` occurs.
pub count : ℕ → List ℕ → ℕ
count h [] = 0
count h (x ∷ xs) = if h == x then suc (count h xs) else count h xs

unfoldable pub owed : Option (List ℕ) → ℕ → ℕ
owed none h = 0
owed (some hs) h = count h hs

count-snoc :
    (j h : ℕ) (hs : List ℕ)
    → count j (hs ++ h ∷ []) ≡ (if j == h then suc (count j hs) else count j hs)
unfolding count
count-snoc j h [] = ground arith
count-snoc j h (x ∷ hs) = let ih = count-snoc j h hs in ground arith

lower_all-count :
    (lends : Lends) (hs : List ℕ) (j : ℕ) → lower_all lends hs j ≡ lends j - count j hs
unfolding lower_all lower count
lower_all-count lends [] j = omega arith
lower_all-count lends (h ∷ hs) j = let ih = lower_all-count (lower lends h) hs j in grind arith

module _ {ℓ} {V : Type ℓ} where
  -- `base` are the lends that the subtask does not owe, and a subtask that owes no more is resolved.
  unfoldable pub Accounts : Lends → Lends × Subtask V → Type 0
  Accounts base (lends, t) =
      ((h : ℕ) → lends h ≡ base h + owed t.lenders h)
      × ((is_some t.lenders || resolved t.state) ≡ true)

  -- The operations on a subtask and the counts of the handles, as they return.
  pub data Step : Lends × Subtask V → Lends × Subtask V → Type ℓ where
    lends_handle :
        {lends : Lends} {t : Subtask V} {r : Lends × Subtask V} (h : ℕ)
        → add_lender lends t h ≡ ok r
        → Step (lends, t) r
    resolves :
        {lends : Lends} {t t' : Subtask V} (state : SubtaskState) (results : List V)
        → resolve t state results ≡ ok t'
        → Step (lends, t) (lends, t')
    delivers :
        {lends : Lends} {t : Subtask V} {r : Lends × Subtask V}
        → deliver_resolve lends t ≡ ok r
        → Step (lends, t) r
    unwinds :
        {lends : Lends} {t : Subtask V} {r : Lends × Subtask V}
        → unwind_lenders lends t ≡ ok r
        → Step (lends, t) r
    notifies :
        {lends lends' : Lends} {t t' : Subtask V} {event : EventCode × ℕ × ℕ} (i : ℕ)
        → subtask_event lends t i ≡ ok (event, lends', t')
        → Step (lends, t) (lends', t')

  pub data Steps (s : Lends × Subtask V) : Lends × Subtask V → Type ℓ where
    start : Steps s s
    after : {t u : Lends × Subtask V} → Steps s t → Step t u → Steps s u

  add_lender-Accounts :
      (base lends : Lends) (t : Subtask V) (h : ℕ) {r : Lends × Subtask V}
      → add_lender lends t h ≡ ok r
      → Accounts base (lends, t)
      → Accounts base r
  unfolding Accounts raise owed
  add_lender-Accounts base lends t h e (owes, live) =
      let (hs, has_lenders, unresolved, same) = add_lender-eq lends t h e in
      subst (Accounts base) (sym same) (
        λ j.
            let before = owes j ∙ ap (λ o. base j + owed o j) has_lenders in
            let more = count-snoc j h hs in grind arith,
        refl,
      )

  resolve-Accounts :
      (base lends : Lends) (t : Subtask V) (state : SubtaskState) (results : List V)
      {t' : Subtask V}
      → resolve t state results ≡ ok t'
      → Accounts base (lends, t)
      → Accounts base (lends, t')
  unfolding Accounts
  resolve-Accounts base lends t state results e (owes, live) =
      let (unresolved, same) = resolve-eq t state results e in
      subst (λ t'. Accounts base (lends, t')) (sym same) (owes, ground arith)

  deliver_resolve-Accounts :
      (base lends : Lends) (t : Subtask V) {r : Lends × Subtask V}
      → deliver_resolve lends t ≡ ok r
      → Accounts base (lends, t)
      → Accounts base r
  unfolding Accounts owed
  deliver_resolve-Accounts base lends t e (owes, live) =
      let (hs, has_lenders, done, same) = deliver_resolve-eq lends t e in
      subst (Accounts base) (sym same) (
        λ j.
            let before = owes j ∙ ap (λ o. base j + owed o j) has_lenders in
            omega (arith, lower_all-count lends hs j),
        done,
      )

  deliver_once-Accounts :
      (base lends : Lends) (t : Subtask V) {r : Lends × Subtask V}
      → deliver_once lends t ≡ ok r
      → Accounts base (lends, t)
      → Accounts base r
  deliver_once-Accounts base lends t e a = elim (deliver_once-eq lends t e) [
    | inl same ↦ subst (Accounts base) (sym same) a
    | inr once ↦ deliver_resolve-Accounts base lends t once a
  ]

  pub unwind_lenders-Accounts :
      (base lends : Lends) (t : Subtask V) {r : Lends × Subtask V}
      → unwind_lenders lends t ≡ ok r
      → Accounts base (lends, t)
      → Accounts base r
  unwind_lenders-Accounts base lends t e a =
      let (t', first, last) = unwind_lenders-eq lends t e in
      deliver_once-Accounts base lends t' last (elim first [
        | inl same ↦ subst (λ u. Accounts base (lends, u)) (sym same) a
        | inr resolved_now ↦ resolve-Accounts base lends t (cancelled t.state) [] resolved_now a
      ])

  Step-Accounts :
      (base : Lends) {s u : Lends × Subtask V} → Step s u → Accounts base s → Accounts base u
  Step-Accounts base (lends_handle {lends} {t} h e) a = add_lender-Accounts base lends t h e a
  Step-Accounts base (resolves {lends} {t} state results e) a =
      resolve-Accounts base lends t state results e a
  Step-Accounts base (delivers {lends} {t} e) a = deliver_resolve-Accounts base lends t e a
  Step-Accounts base (unwinds {lends} {t} e) a = unwind_lenders-Accounts base lends t e a
  Step-Accounts base (notifies {lends} {lends'} {t} i e) a = elim (subtask_event-eq lends t i e) [
    | inl same ↦ subst (Accounts base) (sym same) a
    | inr delivered ↦ deliver_once-Accounts base lends t delivered a
  ]

  -- Whatever operations a new subtask goes through, the lends of each handle are those it had at
  -- the start and one for each time that the subtask still has it among its lenders, and a subtask
  -- without lenders is resolved.
  pub Steps-Accounts :
      (base : Lends) {s : Lends × Subtask V} → Steps (base, new) s → Accounts base s
  unfolding Accounts owed new count
  Steps-Accounts base start = (λ h. omega arith, refl)
  Steps-Accounts base (after steps step) = Step-Accounts base step (Steps-Accounts base steps)
