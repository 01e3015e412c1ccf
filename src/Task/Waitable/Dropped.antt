-- ===== src/Task/Waitable/Dropped.antt =====
-- What dropping a waitable or a set requires and leaves behind.
use polyengine.Base.{
  ℕ, true, false, not, none, some, List, [], ◌∷◌, ◌≡◌, ◌≢◌, ◌↔◌, refl, sym, ap, ap₂, ok, Returns,
  Returns-assert, ==_refl, if◌then◌else◌, has, length, ltb, trap_if, arith, ◌>>◌, ◌∙◌,
}
use polyengine.Task.Waitable.{Waitable, Store, put, is_set, drop, drop_set}
use polyengine.Task.Waitable.Joined.{Joined, Moved, join-Joins}

abbrev cleared : Store → ℕ → Store
cleared s w = record s {
  waitable = put s.waitable w (record (s.waitable w) { pending_event = none });
}

put_self : (f : ℕ → Waitable) (w : ℕ) (a : Waitable) → put f w a w ≡ a
put_self f w a = ap (λ b. if b then a else f w) (==_refl w)

cleared-wset : (s : Store) (w v : ℕ) → ((cleared s w).waitable v).wset ≡ (s.waitable v).wset
cleared-wset s w v = grind arith

cleared-Joined : (s : Store) (w : ℕ) → Joined s → Joined (cleared s w)
unfolding Joined
cleared-Joined s w h i = ((h i).0, λ v. (h i).1 v ∙ ap (is_set i) (sym (cleared-wset s w v)))

-- In a store where the two sides of membership agree, dropping a waitable without a synchronous
-- waiter succeeds. The sides agree afterwards, the waitable has no pending event and no set, and
-- no set lists it.
pub drop-Leaves :
    (s : Store) (w : ℕ)
    → Joined s
    → (s.waitable w).has_sync_waiter ≡ false
    → Returns
        (λ t.
          Joined t
          × ((t.waitable w).pending_event ≡ none)
          × ((t.waitable w).wset ≡ none)
          × ((i : ℕ) → has w (t.wait_set i).elems ≡ false))
        (drop s w)
unfolding drop Joined Moved
drop-Leaves s w h idle =
    let (t, e, (joined, (waitables, elems))) =
      join-Joins (cleared s w) w none (cleared-Joined s w h)
        (ap (λ a. a.has_sync_waiter) (put_self s.waitable w _) ∙ idle) in
    let now = ap (λ f. f w) waitables ∙ put_self (cleared s w).waitable w _ in
    let no_set = ap (λ a. a.wset) now in
    Returns-assert _ _ _ _ (ap not idle) (
      t,
      e,
      (
        joined,
        ap (λ a. a.pending_event) now ∙ ap (λ a. a.pending_event) (put_self s.waitable w _),
        no_set,
        λ i. (joined i).1 w ∙ ap (is_set i) no_set,
      ),
    )

members :
    (s : Store) (i : ℕ)
    → Joined s
    → ((w : ℕ) → (s.waitable w).wset ≢ some i)
    → (s.wait_set i).elems ≡ []
unfolding Joined
members s i h away = from (s.wait_set i).elems (λ w. (h i).1 w)
  where
    from : (xs : List ℕ) → ((w : ℕ) → has w xs ≡ is_set i (s.waitable w).wset) → xs ≡ []
    from [] e = refl
    from (w ∷ xs) e = let listed = e w in let out = away w in ground arith

-- In a store where the two sides of membership agree, a waitable set can be dropped exactly when
-- no waitable names it as its set and nothing waits on it.
pub drop_set_iff :
    (s : Store) (i : ℕ)
    → Joined s
    → (drop_set s i ≡ ok tt)
      ↔ (((w : ℕ) → (s.waitable w).wset ≢ some i) × ((s.wait_set i).num_waiting ≡ 0))
unfolding drop_set Joined
drop_set_iff s i h = (to (s.wait_set i).elems refl, λ (away, n). from away n)
  where
    to :
        (xs : List ℕ)
        → (s.wait_set i).elems ≡ xs
        → (trap_if (ltb 0 (length xs)) "cannot drop waitable set with waitables"
            >> trap_if (ltb 0 (s.wait_set i).num_waiting) "cannot drop waitable set with waiters")
          ≡ ok tt
        → ((w : ℕ) → (s.waitable w).wset ≢ some i) × ((s.wait_set i).num_waiting ≡ 0)
    to [] e r = (
      λ w o.
          let listed : false ≡ true =
            ap (has w) (sym e) ∙ (h i).1 w ∙ ap (is_set i) o ∙ ==_refl i in
          cc,
      ground arith,
    )
    to (x ∷ xs) e r = ground arith

    from :
        ((w : ℕ) → (s.waitable w).wset ≢ some i)
        → (s.wait_set i).num_waiting ≡ 0
        → drop_set s i ≡ ok tt
    from away n =
        ap₂
          (λ xs m.
            trap_if (ltb 0 (length xs)) "cannot drop waitable set with waitables"
            >> trap_if (ltb 0 m) "cannot drop waitable set with waiters")
          (members s i h away) n
