-- ===== src/Cabi/Handles/Tests.antt =====
-- An own handle of table 3 and a borrow handle of table 4 for task 7; a destructor that does
-- nothing.
use polyengine.Base.{
  ℕ, ◌≡◌, ◌≢◌, refl, subst, ap, true, false, none, some, [], ◌∷◌, Result, ok, err, trap,
}
use polyengine.Cabi.Table.{empty, get, add, remove, entry, reuse, add_at}
use polyengine.Cabi.Table.Valid.{Valid, empty-Valid}
use polyengine.Task.Waitable.{put}
use polyengine.Task.Subtask.{new, add_lender, push_lender, raise, resolve_delivered, resolved}
use polyengine.Cabi.Handles.{
  resource, Instance, resource_of, add_handle, lift_own, lift_borrow, lower_own, lower_borrow,
  canon_resource_new, canon_resource_rep, drop_borrow, drop_handle, canon_resource_drop, Destructor,
  use_removed, remove_handle_with_unwind, owned_rep, drop_own, drop_checked, unlent_handle,
}
use polyengine.Cabi.Handles.Weight.{weight}
use polyengine.Cabi.Handles.Accounts.{Accounted}
use polyengine.Cabi.Handles.Transfer.{
  no_step, step_then, lower_own_step, lower_borrow_step, Steps-Accounted, lift_own-lower_own,
  own_handle,
}

handles_code : ℕ
unfolding empty get add remove entry reuse add_at add_lender push_lender raise resolve_delivered
    resolved new resource_of add_handle lift_own lift_borrow lower_own lower_borrow
    canon_resource_new canon_resource_rep drop_borrow drop_handle canon_resource_drop use_removed
    remove_handle_with_unwind owned_rep drop_own drop_checked unlent_handle
handles_code = 0

abbrev no_dtor : Destructor (Unit {0})
no_dtor rt rep s = (ok tt, s)

abbrev start : Instance (Unit {0})
start = record {
  handles = record { array = none ∷ []; free = []; tenure = 0 ∷ [] };
  lends = λ a. 0;
  num_borrows = λ t. 0;
  next_address = 0;
  may_leave = true;
  implements = λ rt. false;
}

abbrev state_of :
    {A : Type 0} → Instance (Unit {0}) → Result (A × Instance (Unit {0})) → Instance (Unit {0})
state_of s (ok p) = p.1
state_of s (err e) = s

abbrev owning : Instance (Unit {0})
owning = record start {
  handles = record {
    array = none ∷ some (resource 0 (own_handle 42 3)) ∷ [];
    free = [];
    tenure = 0 ∷ 1 ∷ [];
  };
  lends = put (λ a. 0) 0 0;
  next_address = 1;
}

lower_own-start : lower_own start 42 3 ≡ ok (1, owning)
unfolding handles_code
lower_own-start = refl

owned_rep_found : (lift_own owning 1 3).0 ≡ ok 42
unfolding handles_code
owned_rep_found = refl

other_type : (lift_own owning 1 4).0 ≡ err (trap "resource type mismatch")
unfolding handles_code
other_type = refl

abbrev borrowing : Instance (Unit {0})
borrowing = state_of owning (lower_borrow owning (some 7) 9 4)

borrow_counted : borrowing.num_borrows 7 ≡ 1
unfolding handles_code
borrow_counted = refl

borrow_not_owned : (lift_own borrowing 2 4).0 ≡ err (trap "expected own handle")
unfolding handles_code
borrow_not_owned = refl

start-Accounted : Accounted start
unfolding empty weight
start-Accounted = record { valid = empty-Valid; fitting = refl; counted = λ scope. refl }

lower_borrow-owning : lower_borrow owning (some 7) 9 4 ≡ ok (2, borrowing)
unfolding handles_code
lower_borrow-owning = refl

Steps-Accounted_example : Accounted borrowing
Steps-Accounted_example =
    Steps-Accounted (Unit {0}) no_dtor start borrowing
      (λ rt rep s s' a e. subst Accounted (ap (λ q. q.1) e) a) start-Accounted
      (step_then (lower_own_step 42 3 1 lower_own-start)
        (step_then (lower_borrow_step (some 7) 9 4 2 lower_borrow-owning) no_step))

lift_own-lower_own_example :
    ((lift_own owning 1 3).0 ≡ ok 42)
    × (get (lift_own owning 1 3).1.handles 1 ≡ err (trap "table entry empty"))
    × ((j : ℕ) → 1 ≢ j → get (lift_own owning 1 3).1.handles j ≡ get start.handles j)
lift_own-lower_own_example = lift_own-lower_own start owning 42 3 start-Accounted lower_own-start

abbrev lending : Instance (Unit {0})
lending = record owning { lends = λ a. 1 }

lent_traps : (lift_own lending 1 3).0 ≡ err (trap "handle still lent out")
unfolding handles_code
lent_traps = refl
