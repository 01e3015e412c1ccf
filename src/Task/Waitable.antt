-- ===== src/Task/Waitable.antt =====
-- runtime/src/task/waitable.ts: waitables and the sets that they join. Waitables and sets are
-- objects that refer to one another, so they stand in a store and are named by their address in
-- it. A pending event is a thunk in the source; here it is the event code with its index, and what the
-- thunk does when it is called, which is code of subtasks and of streams, is the parameter `thunk`, of
-- which nothing is assumed: it may throw, and it may change the store and the rest `R` of the state.
pub mod Joined
pub mod Delivery
pub mod Dropped
mod Tests
use polyengine.Base.{
  ℕ, zero, suc, ◌+◌, ◌-◌, ◌%◌, get_elem?, Bool, true, false, not, ◌&&◌, Option, none, some, List,
  [], ◌∷◌, ◌++◌, ◌||◌, Result, ok, err, error, assertion_error, ◌>>=◌, ◌>>◌, assert, trap_if, ltb,
  ◌==◌, if◌then◌else◌, length, has,
}

pub data EventCode : Type 0 where
  no_event subtask stream_read stream_write future_read future_write task_cancelled : EventCode

pub record Waitable : Type 0 where
  pub pending_event : Option (EventCode × ℕ)
  pub wset : Option ℕ
  pub has_sync_waiter : Bool

pub record WaitableSet : Type 0 where
  pub elems : List ℕ
  pub num_waiting : ℕ

pub record Store : Type 0 where
  pub waitable : ℕ → Waitable
  pub wait_set : ℕ → WaitableSet

abbrev pub put {ℓ} : {A : Type ℓ} → (ℕ → A) → ℕ → A → ℕ → A
put f i a j = if i == j then a else f j

abbrev pub is_some {ℓ} : {A : Type ℓ} → Option A → Bool
is_some none = false
is_some (some a) = true

-- `this.wset === wset`
abbrev pub is_set : ℕ → Option ℕ → Bool
is_set i none = false
is_set i (some j) = i == j

pub has_pending_event : Store → ℕ → Bool
has_pending_event s w = is_some (s.waitable w).pending_event

pub set_pending_event : Store → ℕ → EventCode × ℕ → Store
set_pending_event s w event = record s {
  waitable = put s.waitable w (record (s.waitable w) { pending_event = some event });
}

pub clear_event : Store → ℕ → Store
clear_event s w = record s {
  waitable = put s.waitable w (record (s.waitable w) { pending_event = none });
}

abbrev pub EventTuple : Type 0
EventTuple = EventCode × ℕ × ℕ

-- The event, or what is thrown, and the state as the call leaves it.
abbrev pub Event : Type 0 → Type 0
Event R = Result EventTuple × Store × R

abbrev pub Thunk : Type 0 → Type 0
Thunk R = EventCode × ℕ → Store → R → Event R

-- `elems.splice(elems.indexOf(w), 1)`
pub splice : ℕ → List ℕ → List ℕ
splice w [] = []
splice w (x ∷ xs) = if w == x then xs else x ∷ splice w xs

pub leave : Store → ℕ → Option ℕ → Result Store
leave s w none = ok s
leave s w (some i) = do
  assert (has w (s.wait_set i).elems) "waitable not in its own waitable set"
  ok (record s {
    wait_set = put s.wait_set i (record (s.wait_set i) { elems = splice w (s.wait_set i).elems });
  })

pub enter : Store → ℕ → Option ℕ → Store
enter s w none = s
enter s w (some i) = record s {
  wait_set = put s.wait_set i (record (s.wait_set i) { elems = (s.wait_set i).elems ++ w ∷ [] });
}

pub join : Store → ℕ → Option ℕ → Result Store
join s w wset = do
  assert (not (s.waitable w).has_sync_waiter) "join on a waitable with a sync waiter"
  left ← leave s w (s.waitable w).wset
  ok (
      enter
        (record left { waitable = put left.waitable w (record (left.waitable w) { wset = wset }) })
        w wset)

-- `drop` of a waitable. It discards a pending event.
pub drop : Store → ℕ → Result Store
drop s w = do
  assert (not (s.waitable w).has_sync_waiter) "dropping a waitable with a sync waiter"
  join (record s { waitable = put s.waitable w (record (s.waitable w) { pending_event = none }) }) w
      none

pub any_pending : Store → List ℕ → Bool
any_pending s [] = false
any_pending s (w ∷ ws) = has_pending_event s w || any_pending s ws

pub ready : Store → List ℕ → List ℕ
ready s [] = []
ready s (w ∷ ws) = if has_pending_event s w then w ∷ ready s ws else ready s ws

pub at_index : Option ℕ → Result ℕ
at_index none = err (error "undefined candidate")
at_index (some w) = ok w

-- `chooseCandidate` of the scheduler. `draw` is the number `nextRandom` returns, none if there is
-- no seed.
pub choose_candidate : Option ℕ → List ℕ → Result ℕ
choose_candidate draw candidates = do
  assert (ltb 0 (length candidates)) "chooseCandidate on an empty candidate set"
  at_index (get_elem? candidates (position draw))
  where
    position : Option ℕ → ℕ
    position none = 0
    position (some n) = n % length candidates

-- The member whose event `getPendingEvent` of a set takes.
pub choose_member : Store → ℕ → Option ℕ → Result ℕ
choose_member s i draw =
    let members = ready s (s.wait_set i).elems in
    do
      assert (ltb 0 (length members)) "getPendingEvent on a set with no pending event"
      w ← choose_candidate draw members
      assert (is_set i (s.waitable w).wset) "waitable/waitable-set back-reference mismatch"
      ok w

module _ {R : Type 0} (thunk : Thunk R) where
  pub take_event : Store → R → ℕ → Option (EventCode × ℕ) → Event R
  take_event s r w none = (err (assertion_error "getPendingEvent with no pending event"), s, r)
  take_event s r w (some event) = thunk event (clear_event s w) r

  -- `getPendingEvent` of a waitable.
  pub get_pending_event : Store → R → ℕ → Event R
  get_pending_event s r w = take_event s r w (s.waitable w).pending_event

  pub get_member_event : Store → R → Result ℕ → Event R
  get_member_event s r (err failure) = (err failure, s, r)
  get_member_event s r (ok w) = get_pending_event s r w

  -- `getPendingEvent` of a set.
  pub get_set_event : Store → R → ℕ → Option ℕ → Event R
  get_set_event s r i draw = get_member_event s r (choose_member s i draw)

  pub poll : Store → R → ℕ → Option ℕ → Event R
  poll s r i draw =
      if any_pending s (s.wait_set i).elems
      then get_set_event s r i draw
      else (ok (no_event, 0, 0), s, r)

pub drop_set : Store → ℕ → Result (Unit {0})
drop_set s i = do
  trap_if (ltb 0 (length (s.wait_set i).elems)) "cannot drop waitable set with waitables"
  trap_if (ltb 0 (s.wait_set i).num_waiting) "cannot drop waitable set with waiters"
