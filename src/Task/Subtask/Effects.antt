-- ===== src/Task/Subtask/Effects.antt =====
-- What an operation on a subtask has done when it returns.
use polyengine.Base.{
  ℕ, Bool, true, false, not, ◌||◌, Option, none, some, List, [], ◌∷◌, ◌++◌, ◌≡◌, ◌⊎◌, inl, inr,
  refl, sym, ap, ok, >>=-eq-ok, assert-eq-ok, if-cases, ok_injective, ◌==◌, length, if◌then◌else◌,
  arith, ◌∙◌,
}
use polyengine.Task.Waitable.{EventCode}
use polyengine.Task.Subtask.{
  SubtaskState, is_returned, Subtask, Lends, raise, lower_all, resolved, resolve_delivered,
  push_lender, add_lender, resolve, release, deliver_resolve, deliver_once, unwind_lenders,
  subtask_event, cancelled,
}

module _ {ℓ} {V : Type ℓ} where
  pub add_lender-eq :
      (lends : Lends) (t : Subtask V) (h : ℕ) {r : Lends × Subtask V}
      → add_lender lends t h ≡ ok r
      → (hs : List ℕ) × (t.lenders ≡ some hs)
        × (resolved t.state ≡ false)
        × (r ≡ (raise lends h, record t { lenders = some (hs ++ h ∷ []) }))
  unfolding add_lender resolve_delivered push_lender
  add_lender-eq lends t h {r} e = from t.lenders (resolved t.state) refl refl
    where
      from :
          (o : Option (List ℕ)) (b : Bool)
          → t.lenders ≡ o
          → resolved t.state ≡ b
          → (hs : List ℕ) × (t.lenders ≡ some hs)
            × (resolved t.state ≡ false)
            × (r ≡ (raise lends h, record t { lenders = some (hs ++ h ∷ []) }))
      from none b p q = ground arith
      from (some hs) true p q = ground arith
      from (some hs) false p q = (hs, p, q, sym (ok_injective (rw (p, q) at e)))

  pub resolve-eq :
      (t : Subtask V) (state : SubtaskState) (results : List V) {t' : Subtask V}
      → resolve t state results ≡ ok t'
      → (resolved t.state ≡ false) × (t' ≡ record t { state = state; flat_results = results })
  unfolding resolve
  resolve-eq t state results {t'} e =
      let (_, rest) =
        assert-eq-ok (is_returned state || (length results == 0))
          "non-RETURNED subtask resolution carries results" _ e in
      let (unresolved, made) =
        assert-eq-ok (not (resolved t.state)) "resolve on an already-resolved subtask" _ rest in
      (ground arith, sym (ok_injective made))

  pub deliver_resolve-eq :
      (lends : Lends) (t : Subtask V) {r : Lends × Subtask V}
      → deliver_resolve lends t ≡ ok r
      → (hs : List ℕ) × (t.lenders ≡ some hs)
        × (resolved t.state ≡ true)
        × (r ≡ (lower_all lends hs, record t { lenders = none }))
  unfolding deliver_resolve resolve_delivered release
  deliver_resolve-eq lends t {r} e = from t.lenders (resolved t.state) refl refl
    where
      from :
          (o : Option (List ℕ)) (b : Bool)
          → t.lenders ≡ o
          → resolved t.state ≡ b
          → (hs : List ℕ) × (t.lenders ≡ some hs)
            × (resolved t.state ≡ true)
            × (r ≡ (lower_all lends hs, record t { lenders = none }))
      from none b p q = ground arith
      from (some hs) false p q = ground arith
      from (some hs) true p q = (hs, p, q, sym (ok_injective (rw (p, q) at e)))

  pub deliver_once-eq :
      (lends : Lends) (t : Subtask V) {r : Lends × Subtask V}
      → deliver_once lends t ≡ ok r
      → (r ≡ (lends, t)) ⊎ (deliver_resolve lends t ≡ ok r)
  unfolding deliver_once
  deliver_once-eq lends t e =
      let (delivered, _, rest) = >>=-eq-ok (resolve_delivered t) _ e in
      elim (if-cases delivered rest) [
        | inl (_, same) ↦ inl (sym (ok_injective same))
        | inr (_, delivers) ↦ inr delivers
      ]

  pub unwind_lenders-eq :
      (lends : Lends) (t : Subtask V) {r : Lends × Subtask V}
      → unwind_lenders lends t ≡ ok r
      → (t' : Subtask V) × ((t' ≡ t) ⊎ (resolve t (cancelled t.state) [] ≡ ok t'))
        × (deliver_once lends t' ≡ ok r)
  unfolding unwind_lenders
  unwind_lenders-eq lends t e =
      let (t', first, rest) =
        >>=-eq-ok (if resolved t.state then ok t else resolve t (cancelled t.state) []) _ e in
      (
        t',
        elim (if-cases (resolved t.state) first) [
          | inl (_, same) ↦ inl (sym (ok_injective same))
          | inr (_, resolves) ↦ inr resolves
        ],
        rest,
      )

  pub subtask_event-eq :
      (lends : Lends) (t : Subtask V) (i : ℕ) {event : EventCode × ℕ × ℕ} {lends' : Lends}
      {t' : Subtask V}
      → subtask_event lends t i ≡ ok (event, lends', t')
      → (◌≡◌ {A = Lends × Subtask V} (lends', t') (lends, t)
          ⊎ (deliver_once lends t ≡ ok (lends', t')))
  unfolding subtask_event
  subtask_event-eq lends t i {event} {lends'} {t'} e =
      let ((l, u), first, rest) =
        >>=-eq-ok (if resolved t.state then deliver_once lends t else ok (lends, t)) _ e in
      let same : ◌≡◌ {A = Lends × Subtask V} (l, u) (lends', t') =
        ap (λ p. (p.1, p.2)) (ok_injective rest) in
      elim (if-cases (resolved t.state) first) [
        | inl (_, delivers) ↦ inr (delivers ∙ ap ok same)
        | inr (_, kept) ↦ inl (sym same ∙ sym (ok_injective kept))
      ]
