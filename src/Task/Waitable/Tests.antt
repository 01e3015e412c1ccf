-- ===== src/Task/Waitable/Tests.antt =====
-- Three waitables, of which the sets 0 and 1 hold two.
use polyengine.Base.{
  ℕ, zero, suc, true, false, Option, none, some, List, [], ◌∷◌, ◌≡◌, refl, Result, ok, err, trap,
  Returns, arith, has, ◌⊎◌,
}
use polyengine.Task.Waitable.{
  no_event, subtask, Waitable, WaitableSet, Store, is_set, splice, leave, enter, join, drop,
  has_pending_event, take_event, get_pending_event, any_pending, ready, at_index, choose_candidate,
  get_set_event, poll, drop_set, clear_event, Thunk, choose_member, get_member_event,
}
use polyengine.Task.Waitable.Joined.{Joined, Moved, join-Joins}
use polyengine.Task.Waitable.Delivery.{Delivers, poll-Delivers}
use polyengine.Task.Waitable.Dropped.{drop-Leaves}

-- What a test of the waitable code unfolds.
waitable_code : ℕ
unfolding splice leave enter join drop has_pending_event take_event get_pending_event any_pending
    ready at_index choose_candidate get_set_event poll drop_set clear_event choose_member
    get_member_event
waitable_code = 0

abbrev idle : Option ℕ → Waitable
idle o = record { pending_event = none; wset = o; has_sync_waiter = false }

abbrev with_event : Option ℕ → Waitable
with_event o = record { pending_event = some (subtask, 7); wset = o; has_sync_waiter = false }

abbrev waitables : ℕ → Waitable
waitables zero = with_event (some 0)
waitables (suc zero) = idle (some 0)
waitables (suc (suc w)) = idle none

abbrev wait_sets : ℕ → WaitableSet
wait_sets zero = record { elems = 1 ∷ 0 ∷ []; num_waiting = 0 }
wait_sets (suc i) = record { elems = []; num_waiting = 0 }

abbrev store : Store
store = record { waitable = waitables; wait_set = wait_sets }

store-Joined : Joined store
unfolding Joined
store-Joined zero = ((refl, (refl, tt)), listed)
  where
    listed : (w : ℕ) → has w (1 ∷ 0 ∷ []) ≡ is_set 0 (waitables w).wset
    listed zero = refl
    listed (suc zero) = refl
    listed (suc (suc w)) = ground arith
store-Joined (suc i) = (tt, listed)
  where
    listed : (w : ℕ) → false ≡ is_set (suc i) (waitables w).wset
    listed zero = ground arith
    listed (suc zero) = ground arith
    listed (suc (suc w)) = refl

members_after : Result Store → ℕ → List ℕ
members_after (ok s) i = (s.wait_set i).elems
members_after (err e) i = []

left_set : members_after (join store 1 (some 3)) 0 ≡ 0 ∷ []
unfolding waitable_code members_after
left_set = refl

joined_set : members_after (join store 1 (some 3)) 3 ≡ 1 ∷ []
unfolding waitable_code members_after
joined_set = refl

-- The event with payload 5. It counts its calls, and the second one throws.
reports : Thunk ℕ
reports (code, i) s zero = (ok (code, i, 5), s, 1)
reports (code, i) s (suc calls) = (err (trap "resolved twice"), s, suc (suc calls))

polled : (poll reports store 0 0 (some 5)).0 ≡ ok (subtask, 7, 5)
unfolding waitable_code reports
polled = refl

polled_throws : (poll reports store 1 0 none).0 ≡ err (trap "resolved twice")
unfolding waitable_code reports
polled_throws = refl

polled_empty : (poll reports store 0 1 none).0 ≡ ok (no_event, 0, 0)
unfolding waitable_code reports
polled_empty = refl

nonempty_set : drop_set store 0 ≡ err (trap "cannot drop waitable set with waitables")
unfolding waitable_code
nonempty_set = refl

join-Joins_example : Returns (λ t. Joined t × Moved store 1 (some 3) t) (join store 1 (some 3))
join-Joins_example = join-Joins store 1 (some 3) store-Joined refl

poll-Delivers_example :
    (((w : ℕ) → has w (store.wait_set 0).elems ≡ true → has_pending_event store w ≡ false)
      × (poll reports store 0 0 (some 5) ≡ (ok (no_event, 0, 0), store, 0)))
    ⊎ Delivers reports store 0 0 (poll reports store 0 0 (some 5))
poll-Delivers_example = poll-Delivers reports store 0 0 (some 5) store-Joined

drop-Leaves_example :
    Returns
      (λ t.
        Joined t
        × ((t.waitable 0).pending_event ≡ none)
        × ((t.waitable 0).wset ≡ none)
        × ((i : ℕ) → has 0 (t.wait_set i).elems ≡ false))
      (drop store 0)
drop-Leaves_example = drop-Leaves store 0 store-Joined refl
