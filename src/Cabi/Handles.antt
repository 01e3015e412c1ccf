-- ===== src/Cabi/Handles.antt =====
-- runtime/src/cabi/handles.ts: resource handles in the table of an instance. A handle has the address
-- under which `Lends` of Task/Subtask keeps its `numLends`; the task scopes of borrows have addresses
-- too. Lifting and dropping give the instance as they leave it, also when they throw: a removed handle
-- stays removed when its check traps. What else `onHandleRemovalFailed` does is for the ends of streams
-- and futures, which are not resource handles.
pub mod Weight
pub mod Accounts
pub mod Transfer
mod Tests
use polyengine.Base.{
  ℕ, zero, suc, ◌+◌, ◌-◌, Bool, true, false, not, Option, none, some, Result, ok, err, ◌>>=◌, ◌>>◌,
  assert, trap_if, trap, assertion_error, ◌==◌, if◌then◌else◌,
}
use polyengine.Cabi.Table.{Table, get, add, remove}
use polyengine.Task.Waitable.{put, is_some}
use polyengine.Task.Subtask.{Lends, Subtask, add_lender}

pub record ResourceHandle : Type 0 where
  pub rt : ℕ
  pub rep : ℕ
  pub own : Bool
  pub borrow_scope : Option ℕ

-- The entries of a handle table: resource handles by their addresses, and those of other classes.
pub data Entry (X : Type 0) : Type 0 where
  resource : ℕ → ResourceHandle → Entry X
  other : X → Entry X

pub record Instance (X : Type 0) : Type 0 where
  pub handles : Table (Entry X)
  pub lends : Lends
  pub num_borrows : ℕ → ℕ
  pub next_address : ℕ
  pub may_leave : Bool
  pub implements : ℕ → Bool

-- The result of a call, or what it throws, and the instance as the call leaves it.
abbrev pub Ended : Type 0 → Type 0 → Type 0
Ended A X = Result A × Instance X

-- The destructor, of the table and the representation, runs the guest's code.
abbrev pub Destructor : Type 0 → Type 0
Destructor X = ℕ → ℕ → Instance X → Ended (Unit {0}) X

module _ {X : Type 0} where
  pub resource_of : Entry X → Result (ℕ × ResourceHandle)
  resource_of (resource a h) = ok (a, h)
  resource_of (other x) = err (trap "not a resource handle")

  -- `new ResourceHandle(...)`, which lends to nobody, put into the table.
  pub add_handle : Instance X → ResourceHandle → Result (ℕ × Instance X)
  add_handle s h = do
    (i, handles) ← add s.handles (resource s.next_address h)
    ok (
      i,
      record s {
        handles = handles;
        lends = put s.lends s.next_address 0;
        next_address = s.next_address + 1;
      },
    )

  unfoldable pub use_removed :
      {A : Type 0}
      → Instance X
      → (Entry X → Instance X → Ended A X)
      → Result (Entry X × Table (Entry X))
      → Ended A X
  use_removed s body (err failure) = (err failure, s)
  use_removed s body (ok (e, handles)) = body e (record s { handles = handles })

  unfoldable pub remove_handle_with_unwind :
      {A : Type 0} → Instance X → ℕ → (Entry X → Instance X → Ended A X) → Ended A X
  remove_handle_with_unwind s i body = use_removed s body (remove s.handles i)

  -- The checks of `liftOwn` on the entry that it has removed.
  unfoldable pub owned_rep : Instance X → ℕ → Entry X → Result ℕ
  owned_rep s rt e = do
    (a, h) ← resource_of e
    trap_if (not (h.rt == rt)) "resource type mismatch"
    trap_if (not (s.lends a == 0)) "handle still lent out"
    trap_if (not h.own) "expected own handle"
    ok h.rep

  unfoldable pub lift_own : Instance X → ℕ → ℕ → Ended ℕ X
  lift_own s i rt = remove_handle_with_unwind s i (λ e after. (owned_rep after rt e, after))

  pub lower_own : Instance X → ℕ → ℕ → Result (ℕ × Instance X)
  lower_own s rep rt = add_handle s (record { rt = rt; rep = rep; own = true; borrow_scope = none })

  -- The scope is the task of the call, if there is one.
  pub lower_borrow : Instance X → Option ℕ → ℕ → ℕ → Result (ℕ × Instance X)
  lower_borrow s none rep rt =
      err (assertion_error "lowering a borrow requires a task borrow scope")
  lower_borrow s (some scope) rep rt =
      if s.implements rt
      then ok (rep, s)
      else add_handle (record s { num_borrows = put s.num_borrows scope (s.num_borrows scope + 1) })
          (record { rt = rt; rep = rep; own = false; borrow_scope = some scope })

  pub canon_resource_new : Instance X → ℕ → ℕ → Result (ℕ × Instance X)
  canon_resource_new s rt rep = do
    trap_if (not s.may_leave) "may_leave violation"
    add_handle s (record { rt = rt; rep = rep; own = true; borrow_scope = none })

  pub canon_resource_rep : Instance X → ℕ → ℕ → Result ℕ
  canon_resource_rep s rt i = do
    e ← get s.handles i
    (a, h) ← resource_of e
    trap_if (not (h.rt == rt)) "resource type mismatch"
    ok h.rep

  unfoldable pub drop_borrow : Instance X → Option ℕ → Ended (Unit {0}) X
  drop_borrow s none = (err (assertion_error "borrow handle without a scope"), s)
  drop_borrow s (some scope) =
      (ok tt, record s { num_borrows = put s.num_borrows scope (s.num_borrows scope - 1) })

  unfoldable pub drop_own :
      Destructor X → Instance X → ResourceHandle → Option ℕ → Ended (Unit {0}) X
  drop_own destroy s h none = destroy h.rt h.rep s
  drop_own destroy s h (some scope) = (err (assertion_error "own handle with a borrow scope"), s)

  unfoldable pub drop_handle : Destructor X → Instance X → ResourceHandle → Ended (Unit {0}) X
  drop_handle destroy s h =
      if h.own then drop_own destroy s h h.borrow_scope else drop_borrow s h.borrow_scope

  -- The checks of `canonResourceDrop` on the entry that it has removed.
  unfoldable pub unlent_handle : Instance X → ℕ → Entry X → Result ResourceHandle
  unlent_handle s rt e = do
    (a, h) ← resource_of e
    trap_if (not (h.rt == rt)) "resource type mismatch"
    trap_if (not (s.lends a == 0)) "handle still lent out"
    ok h

  unfoldable pub drop_checked :
      Destructor X → Instance X → Result ResourceHandle → Ended (Unit {0}) X
  drop_checked destroy s (err failure) = (err failure, s)
  drop_checked destroy s (ok h) = drop_handle destroy s h

  unfoldable pub canon_resource_drop : Destructor X → Instance X → ℕ → ℕ → Ended (Unit {0}) X
  canon_resource_drop destroy s rt i =
      if s.may_leave
      then remove_handle_with_unwind s i
          (λ e after. drop_checked destroy after (unlent_handle after rt e))
      else (err (trap "may_leave violation"), s)

module _ {X V : Type 0} where
  -- The scope is the subtask of the call, if there is one.
  pub lift_borrow : Instance X → Option (Subtask V) → ℕ → ℕ → Result (ℕ × Instance X × Subtask V)
  lift_borrow s none i rt = err (assertion_error "lifting a borrow requires a subtask borrow scope")
  lift_borrow s (some subtask) i rt = do
    e ← get s.handles i
    (a, h) ← resource_of e
    trap_if (not (h.rt == rt)) "resource type mismatch"
    (lends, subtask') ← add_lender s.lends subtask a
    ok (h.rep, record s { lends = lends }, subtask')
