-- ===== src/Task/Waitable/Delivery.antt =====
-- What `poll` of a set delivers.
use polyengine.Base.{
  ℕ, zero, suc, ◌<◌, ◌%◌, Bool, true, false, ◌&&◌, Option, none, some, List, [], ◌∷◌, ◌≡◌, ◌⊎◌, inl,
  inr, refl, sym, ap, ok, Returns, Returns-assert, Returns-bind, has, length, get_elem?,
  get_elem?_of_lt, lt→ltb, and_iff, arith, ◌∙◌,
}
use native.Mathlib.Nat.{mod-lt}
use polyengine.Task.Waitable.{
  EventCode, no_event, Store, is_some, has_pending_event, take_event, get_pending_event,
  any_pending, ready, at_index, choose_candidate, get_set_event, poll, clear_event, Event, Thunk,
  choose_member, get_member_event,
}
use polyengine.Task.Waitable.Joined.{Joined}

has_of_get_elem? : (xs : List ℕ) (i : ℕ) {x : ℕ} → get_elem? xs i ≡ some x → has x xs ≡ true
has_of_get_elem? [] i e = cc
has_of_get_elem? (y ∷ xs) zero e = grind arith
has_of_get_elem? (y ∷ xs) (suc i) e = let h = has_of_get_elem? xs i e in ground arith

pub choose_candidate-Member :
    (draw : Option ℕ) (xs : List ℕ)
    → 0 < length xs
    → Returns (λ x. has x xs ≡ true) (choose_candidate draw xs)
unfolding choose_candidate at_index
choose_candidate-Member none [] h = ground arith
choose_candidate-Member none (x ∷ xs) h =
    Returns-assert (λ y. has y (x ∷ xs) ≡ true) _ _ _ (lt→ltb 0 _ h) (x, refl, grind arith)
choose_candidate-Member (some n) xs h =
    let (y, e) = get_elem?_of_lt xs (n % length xs) (mod-lt n h) in
    Returns-assert (λ y. has y xs ≡ true) _ _ _ (lt→ltb 0 _ h)
      (y, ap at_index e, has_of_get_elem? xs _ e)

ready_iff :
    (s : Store) (xs : List ℕ) (w : ℕ) → has w (ready s xs) ≡ (has w xs && has_pending_event s w)
unfolding ready
ready_iff s [] w = refl
ready_iff s (x ∷ xs) w = let ih = ready_iff s xs w in grind arith

bool_cases : (b : Bool) → (b ≡ true) ⊎ (b ≡ false)
bool_cases true = inl refl
bool_cases false = inr refl

ready-length : (s : Store) (xs : List ℕ) → any_pending s xs ≡ true → 0 < length (ready s xs)
unfolding ready any_pending
ready-length s [] h = cc
ready-length s (x ∷ xs) h = let ih = ready-length s xs in ground arith

idle-has :
    (s : Store) (xs : List ℕ) (w : ℕ)
    → any_pending s xs ≡ false
    → has w xs ≡ true
    → has_pending_event s w ≡ false
unfolding any_pending
idle-has s [] w h m = cc
idle-has s (x ∷ xs) w h m = let ih = idle-has s xs w in grind arith

choose_member-Pending :
    (s : Store) (i : ℕ) (draw : Option ℕ)
    → Joined s
    → any_pending s (s.wait_set i).elems ≡ true
    → Returns
        (λ w. (has w (s.wait_set i).elems ≡ true) × (has_pending_event s w ≡ true))
        (choose_member s i draw)
unfolding Joined choose_member
choose_member-Pending s i draw h p = Returns-assert Chosen _ _ _ (lt→ltb 0 _ (ready-length s _ p)) (
    Returns-bind (λ w. has w (ready s (s.wait_set i).elems) ≡ true) Chosen _ _
      (choose_candidate-Member draw _ (ready-length s _ p))
      (λ w m.
        let (member, pending) = (and_iff _ _).0 (sym (ready_iff s (s.wait_set i).elems w) ∙ m) in
        Returns-assert Chosen _ _ _ (sym ((h i).1 w) ∙ member) (w, refl, (member, pending))))
  where
    Chosen : ℕ → Type 0
    Chosen w = (has w (s.wait_set i).elems ≡ true) × (has_pending_event s w ≡ true)

module _ {R : Type 0} (thunk : Thunk R) where
  -- `w` of set `i` has an event, and its thunk has been called where `w` has it no more.
  pub Delivers : Store → R → ℕ → Event R → Type 0
  Delivers s r i result =
      (w : ℕ) × (event : EventCode × ℕ) × (has w (s.wait_set i).elems ≡ true)
      × ((s.waitable w).pending_event ≡ some event)
      × (result ≡ thunk event (clear_event s w) r)

  take_event-Delivers :
      (s : Store) (r : R) (i w : ℕ) (o : Option (EventCode × ℕ))
      → has w (s.wait_set i).elems ≡ true
      → (s.waitable w).pending_event ≡ o
      → is_some o ≡ true
      → Delivers s r i (take_event thunk s r w o)
  unfolding take_event Delivers
  take_event-Delivers s r i w none m e h = cc
  take_event-Delivers s r i w (some event) m e h = (w, event, m, e, refl)

  -- In a store where the two sides of membership agree, `poll` of a set, whatever the scheduler draws:
  -- if no member has a pending event, it returns no event and changes nothing. Otherwise some member
  -- has a pending event, and `poll` takes it from that member and then does what the event's thunk
  -- does, to the store without that event as well, and returns or throws as the thunk does.
  pub poll-Delivers :
      (s : Store) (r : R) (i : ℕ) (draw : Option ℕ)
      → Joined s
      → (((w : ℕ) → has w (s.wait_set i).elems ≡ true → has_pending_event s w ≡ false)
          × (poll thunk s r i draw ≡ (ok (no_event, 0, 0), s, r)))
        ⊎ Delivers s r i (poll thunk s r i draw)
  unfolding poll get_set_event get_member_event get_pending_event has_pending_event
  poll-Delivers s r i draw h = elim (bool_cases (any_pending s (s.wait_set i).elems)) [
    | inl p ↦
        let (w, chosen, (member, pending)) = choose_member-Pending s i draw h p in
        let delivers = take_event-Delivers s r i w _ member refl pending in
        inr (rw (p, chosen) delivers)
    | inr p ↦ inl (λ w. idle-has s _ w p, rw p refl)
  ]
