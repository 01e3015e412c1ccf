-- ===== src/Task/Subtask/Progress.antt =====
-- A call in progress can be resolved, and its event then delivers the resolution.
use polyengine.Base.{
  ℕ, ◌==◌, true, false, ◌||◌, Option, none, some, List, ◌≡◌, refl, ok, length, ◌∙◌, arith,
}
use polyengine.Task.Waitable
use polyengine.Task.Waitable.{EventCode, is_some}
use polyengine.Task.Subtask.{
  SubtaskState, Subtask, Lends, lower_all, state_number, is_returned, new, resolved,
  resolve_delivered, resolve, release, deliver_resolve, deliver_once, subtask_event, drop,
}
use polyengine.Task.Subtask.Lending.{
  Accounts, Steps-Accounts, owed, Steps, resolves, notifies, after,
}

module _ {ℓ} {V : Type ℓ} where
  has_lenders :
      (base lends : Lends) (t : Subtask V)
      → Accounts base (lends, t)
      → resolved t.state ≡ false
      → (hs : List ℕ) × (t.lenders ≡ some hs)
  unfolding Accounts
  has_lenders base lends t (owes, live) open_call = from t.lenders refl
    where
      from : (o : Option (List ℕ)) → t.lenders ≡ o → (hs : List ℕ) × (t.lenders ≡ some hs)
      from none e = let closed : resolved t.state ≡ true = rw e at live in cc
      from (some hs) e = (hs, e)

  resolve-in :
      (t : Subtask V) (state : SubtaskState) (results : List V)
      → resolved t.state ≡ false
      → (is_returned state || (length results == 0)) ≡ true
      → resolve t state results ≡ ok (record t { state = state; flat_results = results })
  unfolding resolve
  resolve-in t state results open_call fits = rw (fits, open_call) refl

  event-in :
      (lends : Lends) (t : Subtask V) (i : ℕ) (hs : List ℕ)
      → t.lenders ≡ some hs
      → resolved t.state ≡ true
      → subtask_event lends t i
        ≡ ok (
          (EventCode.subtask, i, state_number t.state),
          lower_all lends hs,
          record t { lenders = none },
        )
  unfolding subtask_event deliver_once deliver_resolve resolve_delivered release
  event-in lends t i hs e done = rw (done, e) refl

  -- In any state that a new subtask can reach and in which it is not resolved, it can be resolved to
  -- any final state with the results that this state may carry, and its event then tells this
  -- state. The subtask has then gone through two more operations: it has this state and these
  -- results, every handle has the lends it had at the start, and dropping it is the drop of its
  -- waitable.
  pub call_completes :
      (base lends : Lends) (t : Subtask V) (state : SubtaskState) (results : List V) (i w : ℕ)
      (s : Waitable.Store)
      → Steps (base, new) (lends, t)
      → resolved t.state ≡ false
      → resolved state ≡ true
      → (is_returned state || (length results == 0)) ≡ true
      → (t' u : Subtask V) × (lends' : Lends) × (resolve t state results ≡ ok t')
        × (subtask_event lends t' i ≡ ok ((EventCode.subtask, i, state_number state), lends', u))
        × Steps (base, new) (lends', u)
        × (u.state ≡ state)
        × (u.flat_results ≡ results)
        × ((h : ℕ) → lends' h ≡ base h)
        × (drop s w u ≡ Waitable.drop s w)
  unfolding Accounts owed drop resolve_delivered
  call_completes base lends t state results i w s steps open_call done fits =
      let (hs, lent) = has_lenders base lends t (Steps-Accounts base steps) open_call in
      let t' : Subtask V = record t { state = state; flat_results = results } in
      let first = resolve-in t state results open_call fits in
      let event = event-in lends t' i hs lent done in
      let path = after (after steps (resolves state results first)) (notifies i event) in
      let (owes, _) = Steps-Accounts base path in
      (
        t',
        record t' { lenders = none },
        lower_all lends hs,
        first,
        event,
        path,
        refl,
        refl,
        λ h. owes h ∙ omega arith,
        rw done refl,
      )
