-- ===== src/Cabi/Handles/Transfer.antt =====
-- What an instance does with its resource handles, one operation after the other; what lifting a handle
-- does on every branch; a handle that comes and goes.
use polyengine.Base.{
  ℕ, ◌+◌, ◌≡◌, ◌≢◌, refl, ap, subst, ◌∙◌, true, not, Option, none, some, ◌∷◌, set, Result, ok, err,
  ok_injective, >>=-eq-ok, trap, trap_if, ◌==◌, ==_iff, ◌↔◌, arith,
}
use polyengine.Cabi.Table.{Table, get, add, remove}
use polyengine.Cabi.Table.Valid.{Valid, add-Fills, remove-Clears}
use polyengine.Task.Waitable.{put}
use polyengine.Task.Subtask.{Subtask, add_lender}
use polyengine.Cabi.Handles.{
  ResourceHandle, Entry, resource, Instance, resource_of, add_handle, lift_own, lift_borrow,
  lower_own, lower_borrow, canon_resource_new, canon_resource_drop, use_removed,
  remove_handle_with_unwind, owned_rep, Destructor,
}
use polyengine.Cabi.Handles.Accounts.{
  Accounted, Keeps, trap_if-passed, lower_own-Accounted, lower_borrow-Accounted, lift_own-Accounted,
  canon_resource_new-Accounted, canon_resource_drop-Accounted,
}

module _ (V : Type 0) {X : Type 0} (destroy : Destructor X) where
  -- The operations that change the instance, where they return.
  pub data Step : Instance X → Instance X → Type 0 where
    lower_own_step :
        {s s' : Instance X} (rep rt i : ℕ) → lower_own s rep rt ≡ ok (i, s') → Step s s'
    lower_borrow_step :
        {s s' : Instance X} (scope : Option ℕ) (rep rt i : ℕ)
        → lower_borrow s scope rep rt ≡ ok (i, s')
        → Step s s'
    lift_own_step : {s s' : Instance X} (i rt rep : ℕ) → lift_own s i rt ≡ (ok rep, s') → Step s s'
    lift_borrow_step :
        {s s' : Instance X} (subtask subtask' : Subtask V) (i rt rep : ℕ)
        → lift_borrow s (some subtask) i rt ≡ ok (rep, s', subtask')
        → Step s s'
    new_step :
        {s s' : Instance X} (rt rep i : ℕ) → canon_resource_new s rt rep ≡ ok (i, s') → Step s s'
    drop_step :
        {s s' : Instance X} (rt i : ℕ)
        → canon_resource_drop destroy s rt i ≡ (ok tt, s')
        → Step s s'

  pub data Steps : Instance X → Instance X → Type 0 where
    no_step : {s : Instance X} → Steps s s
    step_then : {s s' s'' : Instance X} → Step s s' → Steps s' s'' → Steps s s''

  lift_borrow-Accounted :
      (s s' : Instance X) (subtask subtask' : Subtask V) (i rt rep : ℕ)
      → Accounted s
      → lift_borrow s (some subtask) i rt ≡ ok (rep, s', subtask')
      → Accounted s'
  unfolding lift_borrow
  lift_borrow-Accounted s s' subtask subtask' i rt rep a e =
      let (x, found, rest) = >>=-eq-ok (get s.handles i) _ e in
      let ((address, h), known, checks) = >>=-eq-ok (resource_of x) _ rest in
      let (_, _, lending) =
        >>=-eq-ok (trap_if (not (h.rt == rt)) "resource type mismatch") _ checks in
      let ((lends, lent), added, made) = >>=-eq-ok (add_lender s.lends subtask address) _ lending in
      subst Accounted (ap (λ p. p.1) (ok_injective made))
        (record { valid = a.valid; fitting = a.fitting; counted = a.counted })

  Step-Accounted : Keeps destroy → (s s' : Instance X) → Accounted s → Step s s' → Accounted s'
  Step-Accounted keeps s s' a (lower_own_step rep rt i e) = lower_own-Accounted s s' rep rt a e
  Step-Accounted keeps s s' a (lower_borrow_step scope rep rt i e) =
      lower_borrow-Accounted s s' scope rep rt a e
  Step-Accounted keeps s s' a (lift_own_step i rt rep e) = lift_own-Accounted s s' i rt rep a e
  Step-Accounted keeps s s' a (lift_borrow_step subtask subtask' i rt rep e) =
      lift_borrow-Accounted s s' subtask subtask' i rt rep a e
  Step-Accounted keeps s s' a (new_step rt rep i e) = canon_resource_new-Accounted s s' rt rep a e
  Step-Accounted keeps s s' a (drop_step rt i e) =
      canon_resource_drop-Accounted destroy s s' rt i keeps a e

  -- However the operations follow one another, if destructors keep the accounts, the count of each
  -- task stays the number of the borrow handles in the table that name it, own handles have no
  -- task and borrow handles have one.
  pub Steps-Accounted :
      (s s' : Instance X) → Keeps destroy → Accounted s → Steps s s' → Accounted s'
  Steps-Accounted s s' keeps a no_step = a
  Steps-Accounted s s' keeps a (step_then {s' = mid} step steps) =
      Steps-Accounted mid s' keeps (Step-Accounted keeps s mid a step) steps

abbrev pub own_handle : ℕ → ℕ → ResourceHandle
own_handle rep rt = record { rt = rt; rep = rep; own = true; borrow_scope = none }

module _ {X : Type 0} where
  -- The entry at `i` is empty, the other entries are those of `s`, and so is all but the table.
  abbrev Consumed : Instance X → ℕ → Instance X → Type 0
  Consumed s i s' =
      Valid s'.handles
      × (get s'.handles i ≡ err (trap "table entry empty"))
      × ((j : ℕ) → i ≢ j → get s'.handles j ≡ get s.handles j)
      × (s' ≡ record s { handles = s'.handles })

  remove_found :
      (t : Table (Entry X)) (i : ℕ) {e : Entry X}
      → get t i ≡ ok e
      → (u : Table (Entry X)) × (remove t i ≡ ok (e, u))
  unfolding remove
  remove_found t i found =
      (record t { array = set t.array i none; free = i ∷ t.free }, rw found refl)

  removed-Consumed :
      (s : Instance X) (i : ℕ) {e : Entry X} (u : Table (Entry X))
      → Valid s.handles
      → remove s.handles i ≡ ok (e, u)
      → Consumed s i (record s { handles = u })
  removed-Consumed s i u valid removed =
      let (valid', _, leaves) = remove-Clears s.handles i valid removed in
      (valid', leaves i ∙ ground arith, λ j other. leaves j ∙ ground arith, refl)

  -- An own handle of the table, which lends to nobody, with its representation.
  abbrev pub Owns : Instance X → ℕ → Entry X → ℕ → Type 0
  Owns s rt e rep =
      (address : ℕ) × (h : ResourceHandle) × (resource_of e ≡ ok (address, h))
      × (h.rt ≡ rt)
      × (s.lends address ≡ 0)
      × (h.own ≡ true)
      × (h.rep ≡ rep)

  owned_rep-Owns :
      (s : Instance X) (rt : ℕ) (e : Entry X) (rep : ℕ)
      → owned_rep s rt e ≡ ok rep
      → Owns s rt e rep
  unfolding owned_rep
  owned_rep-Owns s rt e rep h =
      let ((address, g), found, checks) = >>=-eq-ok (resource_of e) _ h in
      let (typed, lent) = trap_if-passed (not (g.rt == rt)) _ _ checks in
      let (unlent, owning) = trap_if-passed (not (s.lends address == 0)) _ _ lent in
      let (own, same) = trap_if-passed (not g.own) _ _ owning in
      (address, g, found, ground arith, ground arith, ground arith, ok_injective same)

  Owns-owned_rep :
      (s : Instance X) (rt : ℕ) (e : Entry X) (rep : ℕ)
      → Owns s rt e rep
      → owned_rep s rt e ≡ ok rep
  unfolding owned_rep
  Owns-owned_rep s rt e rep (address, h, found, typed, unlent, own, same) =
      rw (found, (==_iff h.rt rt).1 typed, (==_iff (s.lends address) 0).1 unlent, own, same) refl

  pub lift_own-Consumed :
      (s : Instance X) (i rt : ℕ) (e : Entry X)
      → Valid s.handles
      → get s.handles i ≡ ok e
      → Consumed s i (lift_own s i rt).1
        × ((rep : ℕ) → ((lift_own s i rt).0 ≡ ok rep) ↔ Owns s rt e rep)
  unfolding lift_own remove_handle_with_unwind use_removed
  lift_own-Consumed s i rt e valid found =
      let (u, removed) = remove_found s.handles i found in
      rw removed (
        removed-Consumed s i u valid removed,
        λ rep. (
          owned_rep-Owns (record s { handles = u }) rt e rep,
          Owns-owned_rep (record s { handles = u }) rt e rep,
        ),
      )

  abbrev lowered : Instance X → Table (Entry X) → Instance X
  lowered s handles = record s {
    handles = handles;
    lends = put s.lends s.next_address 0;
    next_address = s.next_address + 1;
  }

  abbrev Gives : Instance X → ℕ → ℕ → Result ℕ × Instance X → Type 0
  Gives s rep i r =
      (r.0 ≡ ok rep)
      × (get r.1.handles i ≡ err (trap "table entry empty"))
      × ((j : ℕ) → i ≢ j → get r.1.handles j ≡ get s.handles j)

  lift_added :
      (s : Instance X) (rep rt i : ℕ) (handles : Table (Entry X))
      → Valid s.handles
      → add s.handles (resource s.next_address (own_handle rep rt)) ≡ ok (i, handles)
      → Gives s rep i (lift_own (lowered s handles) i rt)
  unfolding resource_of
  lift_added s rep rt i handles valid added =
      let (valid', (_, _, gets, _)) = add-Fills s.handles _ valid added in
      let here : get handles i ≡ ok (resource s.next_address (own_handle rep rt)) =
        gets i ∙ ground arith in
      let ((_, cleared, leaves, _), lifts) =
        lift_own-Consumed (lowered s handles) i rt _ valid' here in
      (
        (lifts rep).1 (s.next_address, own_handle rep rt, refl, refl, ground arith, refl, refl),
        cleared,
        λ j other. leaves j other ∙ gets j ∙ ground arith,
      )

  -- An own handle that is lowered is lifted from its index with its representation. Its entry is empty
  -- afterwards, and the other entries are those from before.
  pub lift_own-lower_own :
      (s s' : Instance X) (rep rt : ℕ) {i : ℕ}
      → Accounted s
      → lower_own s rep rt ≡ ok (i, s')
      → ((lift_own s' i rt).0 ≡ ok rep)
        × (get (lift_own s' i rt).1.handles i ≡ err (trap "table entry empty"))
        × ((j : ℕ) → i ≢ j → get (lift_own s' i rt).1.handles j ≡ get s.handles j)
  unfolding lower_own add_handle
  lift_own-lower_own s s' rep rt {i} a e =
      let ((j, handles), added, made) = >>=-eq-ok (add s.handles _) _ e in
      subst (λ q. Gives s rep q.0 (lift_own q.1 q.0 rt)) (ok_injective made)
        (lift_added s rep rt j handles a.valid added)
