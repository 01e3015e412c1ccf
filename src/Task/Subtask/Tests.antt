-- ===== src/Task/Subtask/Tests.antt =====
-- A call that borrows handle 3 twice and handle 4 once, returns, and delivers.
use polyengine.Base.{ℕ, ◌≡◌, refl, ok, err, trap, Returns, none, some, [], ◌∷◌, true, false}
use polyengine.Task.Waitable
use polyengine.Task.Waitable.{EventCode, is_some, put}
use polyengine.Task.Subtask.{
  SubtaskState, Subtask, Lends, raise, lower, lower_all, new, resolved, resolve_delivered,
  push_lender, add_lender, resolve, release, deliver_resolve, deliver_once, unwind_lenders,
  subtask_event, cancelled, state_number, is_returned, drop, pack_subtask_result,
  unpack_subtask_result,
}
use polyengine.Task.Subtask.Lending.{
  Accounts, Steps, lends_handle, resolves, delivers, start, after, Steps-Accounts,
}
use polyengine.Task.Subtask.Resolution.{
  unwound, resolution_is_final, unwind_lenders-Restores, drop_iff_delivered,
}
use polyengine.Task.Subtask.Progress.{call_completes}

-- What a test of the subtask code unfolds.
subtask_code : ℕ
unfolding raise lower lower_all new resolved resolve_delivered push_lender add_lender resolve
    release deliver_resolve deliver_once unwind_lenders subtask_event cancelled state_number
    is_returned drop pack_subtask_result unpack_subtask_result
subtask_code = 0

abbrev base : Lends
base h = 2

abbrev lent_once : Lends × Subtask ℕ
lent_once = (
  raise base 3,
  record { state = SubtaskState.starting; flat_results = []; lenders = some (3 ∷ []) },
)

abbrev lent_twice : Lends × Subtask ℕ
lent_twice = (
  raise (raise base 3) 4,
  record { state = SubtaskState.starting; flat_results = []; lenders = some (3 ∷ 4 ∷ []) },
)

abbrev answered : Lends × Subtask ℕ
answered = (
  raise (raise base 3) 4,
  record { state = SubtaskState.returned; flat_results = 42 ∷ []; lenders = some (3 ∷ 4 ∷ []) },
)

abbrev delivered : Lends × Subtask ℕ
delivered = (
  lower_all (raise (raise base 3) 4) (3 ∷ 4 ∷ []),
  record { state = SubtaskState.returned; flat_results = 42 ∷ []; lenders = none },
)

first_lend : add_lender base (new {V = ℕ}) 3 ≡ ok lent_once
unfolding subtask_code
first_lend = refl

second_lend : add_lender lent_once.0 lent_once.1 4 ≡ ok lent_twice
unfolding subtask_code
second_lend = refl

answer : resolve lent_twice.1 SubtaskState.returned (42 ∷ []) ≡ ok answered.1
unfolding subtask_code
answer = refl

delivery : deliver_resolve answered.0 answered.1 ≡ ok delivered
unfolding subtask_code
delivery = refl

packed_word : pack_subtask_result 2 5 ≡ ok 82
unfolding subtask_code
packed_word = refl

lend-Steps : Steps (base, new) lent_twice
lend-Steps = after (after start (lends_handle 3 first_lend)) (lends_handle 4 second_lend)

answer-Steps : Steps (base, new) answered
answer-Steps = after lend-Steps (resolves SubtaskState.returned (42 ∷ []) answer)

Steps-Accounts_example : Accounts base delivered
Steps-Accounts_example = Steps-Accounts base (after answer-Steps (delivers delivery))

answered-resolved : resolved answered.1.state ≡ true
unfolding subtask_code
answered-resolved = refl

resolution_is_final_example :
    (delivered.1.state ≡ SubtaskState.returned) × (delivered.1.flat_results ≡ 42 ∷ [])
resolution_is_final_example =
    resolution_is_final (after start (delivers delivery)) answered-resolved

unwind_lenders-Restores_example :
    Returns
      (λ r.
        ((h : ℕ) → r.0 h ≡ base h)
        × (r.1.lenders ≡ none)
        × (r.1.state ≡ unwound SubtaskState.starting)
        × (unwind_lenders r.0 r.1 ≡ ok r))
      (unwind_lenders lent_twice.0 lent_twice.1)
unwind_lenders-Restores_example = unwind_lenders-Restores base lent_twice.0 lent_twice.1 lend-Steps

abbrev waitables : Waitable.Store
waitables = record {
  waitable = λ w. record { pending_event = none; wset = none; has_sync_waiter = false };
  wait_set = λ i. record { elems = []; num_waiting = 0 };
}

drop_iff_delivered_example :
    drop waitables 9 answered.1 ≡ err (trap "cannot drop a subtask which has not yet resolved")
drop_iff_delivered_example = drop_iff_delivered base answered.0 answered.1 waitables 9 answer-Steps

call_completes_example :
    (t' u : Subtask ℕ) × (lends' : Lends) × (resolve lent_twice.1 SubtaskState.returned (42 ∷ [])
      ≡ ok t')
    × (subtask_event lent_twice.0 t' 5
        ≡ ok ((EventCode.subtask, 5, state_number SubtaskState.returned), lends', u))
    × Steps (base, new) (lends', u)
    × (u.state ≡ SubtaskState.returned)
    × (u.flat_results ≡ 42 ∷ [])
    × ((h : ℕ) → lends' h ≡ base h)
    × (drop waitables 9 u ≡ Waitable.drop waitables 9)
unfolding subtask_code
call_completes_example =
    call_completes base lent_twice.0 lent_twice.1 SubtaskState.returned (42 ∷ []) 5 9 waitables
      lend-Steps refl refl refl
