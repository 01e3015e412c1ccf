-- ===== src/Task/Subtask/Resolution.antt =====
-- A subtask resolves once, its unwinding always succeeds, and it is dropped after delivery only.
use polyengine.Base.{
  ℕ, ◌+◌, Bool, true, false, ◌||◌, Option, none, some, List, [], ◌≡◌, inl, inr, refl, ap, subst, ok,
  err, trap, if◌then◌else◌, arith, Returns, Returns-bind, ◌∙◌,
}
use polyengine.Task.Waitable
use polyengine.Task.Waitable.{EventCode, is_some, put}
use polyengine.Task.Subtask.Effects.{
  add_lender-eq, resolve-eq, deliver_resolve-eq, deliver_once-eq, unwind_lenders-eq,
  subtask_event-eq,
}
use polyengine.Task.Subtask.Lending.{
  Accounts, Steps-Accounts, owed, Step, Steps, lends_handle, resolves, delivers, unwinds, notifies,
  start, after, unwind_lenders-Accounts,
}
use polyengine.Task.Subtask.{
  SubtaskState, Subtask, Lends, lower_all, new, resolved, resolve_delivered, resolve, release,
  deliver_resolve, deliver_once, unwind_lenders, cancelled, is_returned, drop,
}

-- The state that unwinding leaves.
pub unwound : SubtaskState → SubtaskState
unwound state = if resolved state then state else cancelled state

cancelled_lem :
    (state : SubtaskState)
    → (is_returned (cancelled state) ≡ false) × (resolved (cancelled state) ≡ true)
unfolding is_returned cancelled resolved
cancelled_lem SubtaskState.starting = (refl, refl)
cancelled_lem _ = (refl, refl)

module _ {ℓ} {V : Type ℓ} where
  -- `u` is resolved as `t` is.
  SameResolution : Subtask V → Subtask V → Type ℓ
  SameResolution t u = (u.state ≡ t.state) × (u.flat_results ≡ t.flat_results)

  deliver_resolve-Same :
      (lends : Lends) (t : Subtask V) {r : Lends × Subtask V}
      → deliver_resolve lends t ≡ ok r
      → SameResolution t r.1
  unfolding SameResolution
  deliver_resolve-Same lends t e =
      let (hs, _, _, same) = deliver_resolve-eq lends t e in
      (ap (λ r. r.1.state) same, ap (λ r. r.1.flat_results) same)

  deliver_once-Same :
      (lends : Lends) (t : Subtask V) {r : Lends × Subtask V}
      → deliver_once lends t ≡ ok r
      → SameResolution t r.1
  unfolding SameResolution
  deliver_once-Same lends t e = elim (deliver_once-eq lends t e) [
    | inl same ↦ (ap (λ r. r.1.state) same, ap (λ r. r.1.flat_results) same)
    | inr once ↦ deliver_resolve-Same lends t once
  ]

  unwind_lenders-Same :
      (lends : Lends) (t : Subtask V) {r : Lends × Subtask V}
      → unwind_lenders lends t ≡ ok r
      → resolved t.state ≡ true
      → SameResolution t r.1
  unwind_lenders-Same lends t {r} e done =
      let (t', first, last) = unwind_lenders-eq lends t e in
      elim first [
        | inl same ↦ subst (λ u. SameResolution u r.1) same (deliver_once-Same lends t' last)
        | inr again ↦
            let (open_still, _) = resolve-eq t (cancelled t.state) [] again in ground arith
      ]

  Step-Same :
      {s u : Lends × Subtask V} → Step s u → resolved s.1.state ≡ true → SameResolution s.1 u.1
  unfolding SameResolution
  Step-Same (lends_handle {lends} {t} h e) done =
      let (hs, _, open_still, _) = add_lender-eq lends t h e in ground arith
  Step-Same (resolves {lends} {t} state results e) done =
      let (open_still, _) = resolve-eq t state results e in ground arith
  Step-Same (delivers {lends} {t} e) done = deliver_resolve-Same lends t e
  Step-Same (unwinds {lends} {t} e) done = unwind_lenders-Same lends t e done
  Step-Same (notifies {lends} {lends'} {t} i e) done = elim (subtask_event-eq lends t i e) [
    | inl same ↦ (ap (λ r. r.1.state) same, ap (λ r. r.1.flat_results) same)
    | inr delivered ↦ deliver_once-Same lends t delivered
  ]

  -- Once a subtask is resolved, no operation changes its state or its results.
  pub resolution_is_final :
      {s u : Lends × Subtask V}
      → Steps s u
      → resolved s.1.state ≡ true
      → (u.1.state ≡ s.1.state) × (u.1.flat_results ≡ s.1.flat_results)
  unfolding SameResolution
  resolution_is_final start done = (refl, refl)
  resolution_is_final (after steps step) done =
      let (state, results) = resolution_is_final steps done in
      let (state', results') = Step-Same step (ap resolved state ∙ done) in
      (state' ∙ state, results' ∙ results)

  deliver_once-Returns :
      (lends : Lends) (t : Subtask V)
      → resolved t.state ≡ true
      → Returns (λ r. (r.1.lenders ≡ none) × (r.1.state ≡ t.state)) (deliver_once lends t)
  unfolding deliver_once deliver_resolve resolve_delivered release
  deliver_once-Returns lends t done = from t.lenders refl
    where
      from :
          (o : Option (List ℕ))
          → t.lenders ≡ o
          → Returns (λ r. (r.1.lenders ≡ none) × (r.1.state ≡ t.state)) (deliver_once lends t)
      from none e = ((lends, t), rw (e, done) refl, (e, refl))
      from (some hs) e =
          ((lower_all lends hs, record t { lenders = none }), rw (e, done) refl, (refl, refl))

  unwind_first :
      (t : Subtask V)
      → Returns
          (λ u. (resolved u.state ≡ true) × (u.state ≡ unwound t.state))
          (if resolved t.state then ok t else resolve t (cancelled t.state) [])
  unfolding resolve unwound
  unwind_first t = from (resolved t.state) refl
    where
      from :
          (b : Bool)
          → resolved t.state ≡ b
          → Returns
              (λ u. (resolved u.state ≡ true) × (u.state ≡ unwound t.state))
              (if resolved t.state then ok t else resolve t (cancelled t.state) [])
      from true e = (t, rw e refl, (e, rw e refl))
      from false e =
          let (not_returned, done) = cancelled_lem t.state in
          (
            record t { state = cancelled t.state; flat_results = [] },
            rw (e, not_returned) refl,
            (done, rw e refl),
          )

  unwind_lenders-Returns :
      (lends : Lends) (t : Subtask V)
      → Returns
          (λ r. (r.1.lenders ≡ none) × (resolved r.1.state ≡ true) × (r.1.state ≡ unwound t.state))
          (unwind_lenders lends t)
  unfolding unwind_lenders
  unwind_lenders-Returns lends t =
      Returns-bind (λ u. (resolved u.state ≡ true) × (u.state ≡ unwound t.state)) _ _ _
        (unwind_first t)
        (λ u (done, state).
          let (r, e, (delivered, same)) = deliver_once-Returns lends u done in
          (r, e, (delivered, ap resolved same ∙ done, same ∙ state)))

  unwind_lenders_again :
      (lends : Lends) (t : Subtask V)
      → t.lenders ≡ none
      → resolved t.state ≡ true
      → unwind_lenders lends t ≡ ok (lends, t)
  unfolding unwind_lenders deliver_once resolve_delivered
  unwind_lenders_again lends t delivered done = rw (delivered, done) (rw done refl)

  -- From any state that a new subtask can reach, unwinding succeeds. Afterwards the subtask is
  -- resolved and delivered, every handle has the lends it had at the start, a resolution
  -- that was there is kept, and one that was not is the cancellation before or after the start.
  -- Unwinding again changes nothing.
  pub unwind_lenders-Restores :
      (base lends : Lends) (t : Subtask V)
      → Steps (base, new) (lends, t)
      → Returns
          (λ r.
            ((h : ℕ) → r.0 h ≡ base h)
            × (r.1.lenders ≡ none)
            × (r.1.state ≡ unwound t.state)
            × (unwind_lenders r.0 r.1 ≡ ok r))
          (unwind_lenders lends t)
  unfolding Accounts owed
  unwind_lenders-Restores base lends t steps =
      let (r, e, (delivered, done, state)) = unwind_lenders-Returns lends t in
      let (owes, _) = unwind_lenders-Accounts base lends t e (Steps-Accounts base steps) in
      (
        r,
        e,
        (
          λ h. owes h ∙ ap (λ o. base h + owed o h) delivered ∙ omega arith,
          delivered,
          state,
          unwind_lenders_again r.0 r.1 delivered done,
        ),
      )

  -- In any state that a new subtask can reach, dropping it while its resolution is not delivered is
  -- a trap, and dropping it afterwards is the drop of its waitable.
  pub drop_iff_delivered :
      (base lends : Lends) (t : Subtask V) (s : Waitable.Store) (w : ℕ)
      → Steps (base, new) (lends, t)
      → drop s w t ≡ (
          if is_some t.lenders
          then err (trap "cannot drop a subtask which has not yet resolved")
          else Waitable.drop s w)
  unfolding Accounts drop resolve_delivered
  drop_iff_delivered base lends t s w steps =
      let (_, live) = Steps-Accounts base steps in from t.lenders refl live
    where
      from :
          (o : Option (List ℕ))
          → t.lenders ≡ o
          → (is_some t.lenders || resolved t.state) ≡ true
          → drop s w t ≡ (
              if is_some t.lenders
              then err (trap "cannot drop a subtask which has not yet resolved")
              else Waitable.drop s w)
      from none e live = let done : resolved t.state ≡ true = rw e at live in rw (e, done) refl
      from (some hs) e live = rw e refl
