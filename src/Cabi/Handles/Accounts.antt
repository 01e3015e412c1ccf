-- ===== src/Cabi/Handles/Accounts.antt =====
-- The borrows that a task has taken are the borrow handles in the table that name it.
use polyengine.Base.{
  ℕ, ◌+◌, ◌≡◌, refl, sym, ap, subst, ◌∙◌, inl, inr, Bool, true, false, not, Option, none, some,
  String, Result, ok, err, ok_injective, ◌>>◌, >>=-eq-ok, trap_if, ◌==◌, if◌then◌else◌, if-cases,
  arith,
}
use polyengine.Cabi.Table.{Table, add, remove}
use polyengine.Cabi.Table.Valid.{Valid, add-Fills, remove-Clears}
use polyengine.Task.Waitable.{put}
use polyengine.Cabi.Handles.{
  ResourceHandle, Entry, resource, other, Instance, resource_of, add_handle, lift_own, lower_own,
  lower_borrow, canon_resource_new, drop_borrow, drop_handle, canon_resource_drop, use_removed,
  remove_handle_with_unwind, owned_rep, Destructor, drop_own, drop_checked, unlent_handle,
}
use polyengine.Cabi.Handles.Weight.{weight, add-weight, remove-weight}

pub scope_weight : ℕ → Option ℕ → ℕ
scope_weight scope none = 0
scope_weight scope (some s) = if s == scope then 1 else 0

-- 1 for an own handle with a scope, and for a borrow handle without one.
pub misfit_handle : Bool → Option ℕ → ℕ
misfit_handle true none = 0
misfit_handle true (some scope) = 1
misfit_handle false none = 1
misfit_handle false (some scope) = 0

pub trap_if-passed {ℓ} :
    {A : Type ℓ} (b : Bool) (message : String) (m : Result A) {a : A}
    → (trap_if b message >> m) ≡ ok a
    → (b ≡ false) × (m ≡ ok a)
trap_if-passed true message m e = cc
trap_if-passed false message m e = (refl, e)

own_scope :
    (own : Bool) (o : Option ℕ) (scope : ℕ)
    → own ≡ true
    → misfit_handle own o ≡ 0
    → scope_weight scope o ≡ 0
unfolding misfit_handle scope_weight
own_scope true none scope own fits = refl
own_scope true (some sc) scope own fits = absurd (omega arith)
own_scope false o scope own fits = cc

module _ {X : Type 0} where
  -- 1 for a borrow handle of the task, else 0.
  pub borrows : ℕ → Entry X → ℕ
  borrows scope (resource a h) = scope_weight scope h.borrow_scope
  borrows scope (other x) = 0

  pub misfit : Entry X → ℕ
  misfit (resource a h) = misfit_handle h.own h.borrow_scope
  misfit (other x) = 0

  -- The table is valid, own handles have no scope and borrow handles have one, and the count of every
  -- task is the number of its borrow handles in the table.
  pub record Accounted (s : Instance X) : Type 0 where
    pub valid : Valid s.handles
    pub fitting : weight misfit s.handles.array ≡ 0
    pub counted : (scope : ℕ) → s.num_borrows scope ≡ weight (borrows scope) s.handles.array

  add_handle-Accounted :
      (s s' : Instance X) (h : ResourceHandle) {i : ℕ}
      → Valid s.handles
      → weight misfit s.handles.array ≡ 0
      → misfit_handle h.own h.borrow_scope ≡ 0
      → ((scope : ℕ)
          → s.num_borrows scope
            ≡ weight (borrows scope) s.handles.array + scope_weight scope h.borrow_scope)
      → add_handle s h ≡ ok (i, s')
      → Accounted s'
  unfolding add_handle borrows misfit
  add_handle-Accounted s s' h valid fitting fits counted e =
      let ((j, handles), added, made) = >>=-eq-ok (add s.handles (resource s.next_address h)) _ e in
      subst Accounted (ap (λ p. p.1) (ok_injective made)) (record {
        valid = (add-Fills s.handles _ valid added).0;
        fitting = add-weight misfit s.handles _ valid added ∙ omega arith;
        counted = λ scope. counted scope ∙ sym (add-weight (borrows scope) s.handles _ valid added);
      })

  pub lower_own-Accounted :
      (s s' : Instance X) (rep rt : ℕ) {i : ℕ}
      → Accounted s
      → lower_own s rep rt ≡ ok (i, s')
      → Accounted s'
  unfolding lower_own scope_weight misfit_handle
  lower_own-Accounted s s' rep rt a e =
      add_handle-Accounted s s' _ a.valid a.fitting refl (λ scope. a.counted scope ∙ omega arith) e

  pub canon_resource_new-Accounted :
      (s s' : Instance X) (rt rep : ℕ) {i : ℕ}
      → Accounted s
      → canon_resource_new s rt rep ≡ ok (i, s')
      → Accounted s'
  unfolding canon_resource_new scope_weight misfit_handle
  canon_resource_new-Accounted s s' rt rep a e =
      let (_, _, added) = >>=-eq-ok (trap_if (not s.may_leave) "may_leave violation") _ e in
      add_handle-Accounted s s' _ a.valid a.fitting refl (λ scope. a.counted scope ∙ omega arith)
        added

  pub lower_borrow-Accounted :
      (s s' : Instance X) (scope : Option ℕ) (rep rt : ℕ) {i : ℕ}
      → Accounted s
      → lower_borrow s scope rep rt ≡ ok (i, s')
      → Accounted s'
  unfolding lower_borrow scope_weight misfit_handle
  lower_borrow-Accounted s s' none rep rt a e = cc
  lower_borrow-Accounted s s' (some sc) rep rt a e = elim (if-cases (s.implements rt) e) [
    | inl (_, same) ↦ subst Accounted (ap (λ p. p.1) (ok_injective same)) a
    | inr (_, added) ↦
        let more = record s { num_borrows = put s.num_borrows sc (s.num_borrows sc + 1) } in
        add_handle-Accounted more s' _ a.valid a.fitting refl
          (λ scope. ground (arith, a.counted scope, a.counted sc)) added
  ]

  -- A table without a handle that it had.
  abbrev Without : Instance X → Table (Entry X) → ResourceHandle → Type 0
  Without s handles h =
      Valid handles
      × (weight misfit handles.array ≡ 0)
      × (misfit_handle h.own h.borrow_scope ≡ 0)
      × ((scope : ℕ)
          → s.num_borrows scope
            ≡ weight (borrows scope) handles.array + scope_weight scope h.borrow_scope)

  remove-Without :
      (s : Instance X) (i : ℕ) (e : Entry X) (handles : Table (Entry X)) (address : ℕ)
      (h : ResourceHandle)
      → Accounted s
      → remove s.handles i ≡ ok (e, handles)
      → resource_of e ≡ ok (address, h)
      → Without s handles h
  unfolding resource_of borrows misfit
  remove-Without s i (resource b g) handles address h a removed found =
      let same = ap (λ p. p.1) (ok_injective found) in
      let fitting = remove-weight misfit s.handles i removed in
      subst (Without s handles) same (
        (remove-Clears s.handles i a.valid removed).0,
        omega (arith, fitting, a.fitting),
        omega (arith, fitting, a.fitting),
        λ scope. a.counted scope ∙ remove-weight (borrows scope) s.handles i removed,
      )
  remove-Without s i (other x) handles address h a removed found = cc

  -- A call that removes a handle and returns has found an entry to use.
  use_removed-ok :
      {A : Type 0} (s s' : Instance X) (body : Entry X → Instance X → Result A × Instance X) (a : A)
      (r : Result (Entry X × Table (Entry X)))
      → use_removed s body r ≡ (ok a, s')
      → (e : Entry X) × (handles : Table (Entry X)) × (r ≡ ok (e, handles))
        × (body e (record s { handles = handles }) ≡ (ok a, s'))
  unfolding use_removed
  use_removed-ok s s' body a (err failure) h = let failed = ap (λ q. q.0) h in cc
  use_removed-ok s s' body a (ok (e, handles)) h = (e, handles, refl, h)

  pub lift_own-Accounted :
      (s s' : Instance X) (i rt rep : ℕ)
      → Accounted s
      → lift_own s i rt ≡ (ok rep, s')
      → Accounted s'
  unfolding lift_own remove_handle_with_unwind owned_rep
  lift_own-Accounted s s' i rt rep a e =
      let (x, handles, removed, used) = use_removed-ok s s' _ rep (remove s.handles i) e in
      let ((address, h), found, checks) = >>=-eq-ok (resource_of x) _ (ap (λ q. q.0) used) in
      let (_, lent) = trap_if-passed (not (h.rt == rt)) _ _ checks in
      let (_, owning) = trap_if-passed (not (s.lends address == 0)) _ _ lent in
      let (own, _) = trap_if-passed (not h.own) _ _ owning in
      let (valid, fitting, fits, counted) =
        remove-Without s i x handles address h a removed found in
      subst Accounted (ap (λ q. q.1) used) (record {
        valid = valid;
        fitting = fitting;
        counted = λ scope.
            counted scope ∙ omega (arith, own_scope h.own h.borrow_scope scope (ground arith) fits);
      })

  -- The destructor, as far as this instance sees it, is code that keeps the accounts where it returns.
  abbrev pub Keeps : Destructor X → Type 0
  Keeps destroy =
      (rt rep : ℕ) (s s' : Instance X) → Accounted s → destroy rt rep s ≡ (ok tt, s') → Accounted s'

  drop_borrow-Accounted :
      (s s' : Instance X) (handles : Table (Entry X)) (o : Option ℕ)
      → Valid handles
      → weight misfit handles.array ≡ 0
      → ((scope : ℕ)
          → s.num_borrows scope ≡ weight (borrows scope) handles.array + scope_weight scope o)
      → drop_borrow (record s { handles = handles }) o ≡ (ok tt, s')
      → Accounted s'
  unfolding drop_borrow scope_weight
  drop_borrow-Accounted s s' handles none valid fitting counted e =
      let failed = ap (λ q. q.0) e in cc
  drop_borrow-Accounted s s' handles (some sc) valid fitting counted e =
      subst Accounted (ap (λ q. q.1) e) (record {
        valid = valid;
        fitting = fitting;
        counted = λ scope. ground (arith, counted scope, counted sc);
      })

  drop_own-ok :
      (destroy : Destructor X) (s s' : Instance X) (h : ResourceHandle) (o : Option ℕ)
      → drop_own destroy s h o ≡ (ok tt, s')
      → destroy h.rt h.rep s ≡ (ok tt, s')
  unfolding drop_own
  drop_own-ok destroy s s' h none e = e
  drop_own-ok destroy s s' h (some scope) e = let failed = ap (λ q. q.0) e in cc

  drop_handle-Accounted :
      (destroy : Destructor X) (s s' : Instance X) (handles : Table (Entry X)) (h : ResourceHandle)
      → Keeps destroy
      → Without s handles h
      → drop_handle destroy (record s { handles = handles }) h ≡ (ok tt, s')
      → Accounted s'
  unfolding drop_handle
  drop_handle-Accounted destroy s s' handles h keeps (valid, fitting, fits, counted) e =
      elim (if-cases h.own e) [
        | inl (own, f) ↦
            keeps h.rt h.rep (record s { handles = handles }) s'
              (record {
                valid = valid;
                fitting = fitting;
                counted = λ scope.
                    counted scope ∙ omega (arith, own_scope h.own h.borrow_scope scope own fits);
              })
              (drop_own-ok destroy _ s' h h.borrow_scope f)
        | inr (_, f) ↦ drop_borrow-Accounted s s' handles h.borrow_scope valid fitting counted f
      ]

  drop_checked-ok :
      (destroy : Destructor X) (s s' : Instance X) (r : Result ResourceHandle)
      → drop_checked destroy s r ≡ (ok tt, s')
      → (h : ResourceHandle) × (r ≡ ok h) × (drop_handle destroy s h ≡ (ok tt, s'))
  unfolding drop_checked
  drop_checked-ok destroy s s' (err failure) e = let failed = ap (λ q. q.0) e in cc
  drop_checked-ok destroy s s' (ok h) e = (h, refl, e)

  pub canon_resource_drop-Accounted :
      (destroy : Destructor X) (s s' : Instance X) (rt i : ℕ)
      → Keeps destroy
      → Accounted s
      → canon_resource_drop destroy s rt i ≡ (ok tt, s')
      → Accounted s'
  unfolding canon_resource_drop remove_handle_with_unwind unlent_handle
  canon_resource_drop-Accounted destroy s s' rt i keeps a e = elim (if-cases s.may_leave e) [
    | inl (_, removing) ↦
        let (x, handles, removed, used) = use_removed-ok s s' _ tt (remove s.handles i) removing in
        let (h, checked, dropped) = drop_checked-ok destroy _ s' _ used in
        let ((address, g), found, checks) = >>=-eq-ok (resource_of x) _ checked in
        let (_, lent) = trap_if-passed (not (g.rt == rt)) _ _ checks in
        let (_, same) = trap_if-passed (not (s.lends address == 0)) _ _ lent in
        drop_handle-Accounted destroy s s' handles g keeps
          (remove-Without s i x handles address g a removed found)
          (ap (λ k. drop_handle destroy (record s { handles = handles }) k) (ok_injective same)
            ∙ dropped)
    | inr (_, f) ↦ let failed = ap (λ q. q.0) f in cc
  ]
