-- ===== src/Cabi/Lists/Checks.antt =====
-- What the list operations have checked when they succeed, of the guest's pointers and of its realloc.
use polyengine.Base.{
  ℕ, ◌+◌, ◌*◌, ◌%◌, ◌≤◌, ◌≡◌, ◌==◌, refl, sym, subst, ap, ◌∙◌, Bool, true, false, not, Option, none,
  some, ltb, leb→le, Result, ok, ok_injective, >>=-eq-ok, ◌>>◌, assert-eq-ok, trap_if, IsOk, arith,
  String,
}
use polyengine.Cabi.Despecialized.{DespecializedType}
use polyengine.Cabi.Layout.{Layout, compute_layout, align_to}
use polyengine.Cabi.Layout.Align.{align_to_bounds}
use polyengine.Cabi.Layout.Lawful.{compute_layout-Lawful}
use polyengine.Cabi.Float.{Floats}
use polyengine.Cabi.Value.{element_count, Host}
use polyengine.Cabi.Access.{HostCx}
use polyengine.Cabi.Bulk.{HostElements}
use polyengine.Cabi.Lists.{
  Reader, Writer, max_list_byte_length, realloc_i32_max, load_list_from_range, leaving,
  call_realloc, Realloc, reallocate_by, reallocate, allocate, store_list_into_valid_range,
  store_list_into_range,
}

trap_if-eq-ok {ℓ} :
    {A : Type ℓ} (b : Bool) (message : String) (m : Result A) {a : A}
    → (trap_if b message >> m) ≡ ok a
    → (b ≡ false) × (m ≡ ok a)
trap_if-eq-ok true message m e = cc
trap_if-eq-ok false message m e = (refl, e)

not_ltb→le : (m n : ℕ) → ltb m n ≡ false → n ≤ m
not_ltb→le m n e = ground arith

not_unequal→≡ : (m n : ℕ) → not (m == n) ≡ false → m ≡ n
not_unequal→≡ m n e = ground arith

module _ {fl : Floats} (host : Host fl) where
  -- A list that is loaded from a range of the guest's choice is not longer than lists may be, its
  -- address is aligned for its elements, and its elements are within the memory, whatever the
  -- bytes and the loads of the elements.
  pub load_list_from_range-checked :
      (read : Reader host) (t : DespecializedType) (cx : HostCx host) (ptr n : ℕ)
      → IsOk (load_list_from_range host read t cx ptr n)
      → (l : Layout) × (compute_layout cx.memory.addr_type t ≡ ok l)
        × (n * l.size ≤ max_list_byte_length)
        × (ptr % l.align ≡ 0)
        × (ptr + n * l.size ≤ cx.memory.length)
  unfolding load_list_from_range
  load_list_from_range-checked read t cx ptr n (r, e) =
      let (l, el, more) = >>=-eq-ok (compute_layout cx.memory.addr_type t) _ e in
      let (short, more') = trap_if-eq-ok _ _ _ more in
      let (aligned, more'') = trap_if-eq-ok _ _ _ more' in
      let (inside, _) = trap_if-eq-ok _ _ _ more'' in
      (
        l,
        el,
        not_ltb→le max_list_byte_length (n * l.size) short,
        not_unequal→≡ (ptr % l.align) 0 aligned,
        not_ltb→le cx.memory.length (ptr + n * l.size) inside,
      )

  -- A list that is stored into a range was given that range by the guest's realloc, which is not
  -- trusted: the address is aligned for the elements, and there is room for all of them in the
  -- memory as realloc left it.
  pub store_list_into_range-checked :
      (write : Writer host) (t : DespecializedType) (cx stored : HostCx host)
      (vs : HostElements host) (ptr n : ℕ)
      → store_list_into_range host write t cx vs ≡ ok ((ptr, n), stored)
      → (l : Layout) × (after : HostCx host) × (compute_layout cx.memory.addr_type t ≡ ok l)
        × (allocate host cx l.align (element_count vs * l.size) ≡ ok (ptr, after))
        × (n ≡ element_count vs)
        × (n * l.size ≤ realloc_i32_max)
        × (ptr % l.align ≡ 0)
        × (ptr + n * l.size ≤ after.memory.length)
  unfolding store_list_into_range
  store_list_into_range-checked write t cx stored vs ptr n e =
      let (l, el, more) = >>=-eq-ok (compute_layout cx.memory.addr_type t) _ e in
      let (small, more₁) = assert-eq-ok _ _ _ more in
      let ((p, after), ea, more₂) =
        >>=-eq-ok (allocate host cx l.align (element_count vs * l.size)) _ more₁ in
      let (aligned, more₃) = trap_if-eq-ok _ _ _ more₂ in
      let (inside, more₄) = trap_if-eq-ok _ _ _ more₃ in
      let (last, _, returned) =
        >>=-eq-ok (store_list_into_valid_range host write t after vs p) _ more₄ in
      let same_ptr : p ≡ ptr = ap (λ r. r.0.0) (ok_injective returned) in
      let same_n : element_count vs ≡ n = ap (λ r. r.0.1) (ok_injective returned) in
      let fixed = not_unequal→≡ p (align_to p l.align) aligned in
      let up = align_to_bounds p l.align (compute_layout-Lawful cx.memory.addr_type t el).aligned in
      let whole = subst (λ q. q % l.align ≡ 0) (sym fixed) up.1 in
      (
        l,
        after,
        el,
        ea ∙ ap (λ q. ok (q, after)) same_ptr,
        sym same_n,
        subst (λ k. k * l.size ≤ realloc_i32_max) same_n
            (leb→le (element_count vs * l.size) realloc_i32_max small),
        subst (λ q. q % l.align ≡ 0) same_ptr whole,
        subst (λ q. q + n * l.size ≤ after.memory.length) same_ptr
            (subst (λ k. p + k * l.size ≤ after.memory.length) same_n
              (not_ltb→le after.memory.length (p + element_count vs * l.size) inside)),
      )

  called :
      (m : Option Bool) (realloc : HostCx host → Result (ℕ × HostCx host)) (cx cx' : HostCx host)
      (ptr : ℕ) {flag : Bool}
      → m ≡ some flag
      → call_realloc host m realloc cx ≡ ok (ptr, cx')
      → (during : HostCx host) × (flag ≡ true)
        × (realloc (leaving host false cx) ≡ ok (ptr, during))
        × (cx' ≡ leaving host true during)
  unfolding call_realloc
  called none realloc cx cx' ptr has e = cc
  called (some b) realloc cx cx' ptr {flag} has e =
      let set : b ≡ flag = cc in
      let (may_leave, more) = assert-eq-ok _ _ _ e in
      let ((p, during), er, more') = >>=-eq-ok (realloc (leaving host false cx)) _ more in
      let (_, _, returned) = >>=-eq-ok (host.checkpoint (leaving host true during).state) _ more' in
      let same : (p, leaving host true during) ≡ (ptr, cx') = ok_injective returned in
      (
        during,
        sym set ∙ may_leave,
        er ∙ ap (λ q. ok (q, during)) (ap (λ r. r.0) same),
        sym (ap (λ r. r.1) same),
      )

  guarded :
      (r : Option (Realloc host)) (cx cx' : HostCx host)
      (old old_byte_length alignment new_byte_length ptr : ℕ) {flag : Bool}
      → host.may_leave cx.state ≡ some flag
      → reallocate_by host r cx old old_byte_length alignment new_byte_length ≡ ok (ptr, cx')
      → (realloc : Realloc host) × (during : HostCx host) × (r ≡ some realloc)
        × (flag ≡ true)
        × (realloc (leaving host false cx) old old_byte_length alignment new_byte_length
            ≡ ok (ptr, during))
        × (cx' ≡ leaving host true during)
  unfolding reallocate_by
  guarded none cx cx' old old_byte_length alignment new_byte_length ptr has e = cc
  guarded (some realloc) cx cx' old old_byte_length alignment new_byte_length ptr has e =
      let (during, might, ran, after) =
        called (host.may_leave cx.state)
          (λ c. realloc c old old_byte_length alignment new_byte_length) cx cx' ptr has e in
      (realloc, during, refl, might, ran, after)

  -- A reallocation for an instance that returns began when the instance might leave. The guest's realloc
  -- ran with the flag cleared, and the flag is set again when it has returned.
  pub reallocate-guarded :
      (cx cx' : HostCx host) (old old_byte_length alignment new_byte_length ptr : ℕ) {flag : Bool}
      → ((b : Bool) (s : host.State) → host.may_leave (host.set_may_leave b s) ≡ some b)
      → host.may_leave cx.state ≡ some flag
      → reallocate host cx old old_byte_length alignment new_byte_length ≡ ok (ptr, cx')
      → (realloc : Realloc host) × (during : HostCx host) × (host.realloc ≡ some realloc)
        × (flag ≡ true)
        × (host.may_leave (leaving host false cx).state ≡ some false)
        × (realloc (leaving host false cx) old old_byte_length alignment new_byte_length
            ≡ ok (ptr, during))
        × (host.may_leave cx'.state ≡ some true)
  unfolding reallocate leaving
  reallocate-guarded cx cx' old old_byte_length alignment new_byte_length ptr law has e =
      let (realloc, during, is, might, ran, after) =
        guarded host.realloc cx cx' old old_byte_length alignment new_byte_length ptr has e in
      (
        realloc,
        during,
        is,
        might,
        law false cx.state,
        ran,
        ap (λ c. host.may_leave c.state) after ∙ law true during.state,
      )
