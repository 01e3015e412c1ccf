-- ===== src/Cabi/Handles/Weight.antt =====
-- A sum over the entries of a table.
use polyengine.Base.{
  ℕ, zero, suc, ◌+◌, ◌≡◌, ap, ◌∙◌, Option, none, some, List, [], ◌∷◌, ◌++◌, ok, >>=-eq-ok,
  ok_injective, arith, get_elem?, set,
}
use polyengine.Cabi.Table.{Table, add, remove, get}
use polyengine.Cabi.Table.Valid.{Valid, Added, in_free, behind, add-Added, AreFree-eq, entry-eq-ok}

module _ {ℓ} {T : Type ℓ} where
  unfoldable pub weight : (T → ℕ) → List (Option T) → ℕ
  weight w [] = 0
  weight w (none ∷ es) = weight w es
  weight w (some e ∷ es) = w e + weight w es

  weight-append :
      (w : T → ℕ) (es : List (Option T)) (e : T) → weight w (es ++ some e ∷ []) ≡ weight w es + w e
  unfolding weight
  weight-append w [] e = omega arith
  weight-append w (none ∷ es) e = weight-append w es e
  weight-append w (some x ∷ es) e = omega (arith, weight-append w es e)

  weight-fill :
      (w : T → ℕ) (es : List (Option T)) (i : ℕ) (e : T)
      → get_elem? es i ≡ some none
      → weight w (set es i (some e)) ≡ weight w es + w e
  unfolding weight
  weight-fill w [] i e h = cc
  weight-fill w (none ∷ es) zero e h = omega arith
  weight-fill w (some x ∷ es) zero e h = cc
  weight-fill w (none ∷ es) (suc i) e h = weight-fill w es i e h
  weight-fill w (some x ∷ es) (suc i) e h = omega (arith, weight-fill w es i e h)

  same_entry : {x e : T} → some (some x) ≡ some (some e) → x ≡ e
  same_entry h = cc

  weight-clear :
      (w : T → ℕ) (es : List (Option T)) (i : ℕ) {e : T}
      → get_elem? es i ≡ some (some e)
      → weight w es ≡ weight w (set es i none) + w e
  unfolding weight
  weight-clear w [] i h = cc
  weight-clear w (none ∷ es) zero h = cc
  weight-clear w (some x ∷ es) zero {e} h = let same = ap w (same_entry h) in omega (arith, same)
  weight-clear w (none ∷ es) (suc i) h = weight-clear w es i h
  weight-clear w (some x ∷ es) (suc i) h = omega (arith, weight-clear w es i h)

  -- An entry that is added counts, and one that is removed does not any more.
  pub add-weight :
      (w : T → ℕ) (t : Table T) (e : T) {i : ℕ} {u : Table T}
      → Valid t
      → add t e ≡ ok (i, u)
      → weight w u.array ≡ weight w t.array + w e
  add-weight w t e {i} {u} v h = by_case (add-Added t e v h)
    where
      by_case : {i : ℕ} {u : Table T} → Added t e i u → weight w u.array ≡ weight w t.array + w e
      by_case (in_free i free f) = weight-fill w t.array i e (AreFree-eq t v f).1
      by_case (behind f room) = weight-append w t.array e

  pub remove-weight :
      (w : T → ℕ) (t : Table T) (i : ℕ) {e : T} {u : Table T}
      → remove t i ≡ ok (e, u)
      → weight w t.array ≡ weight w u.array + w e
  unfolding remove get
  remove-weight w t i {e} {u} h =
      let (x, found, made) = >>=-eq-ok (get t i) _ h in
      let p = ok_injective made in
      let table = ap (λ p. p.1) p in
      let taken = ap (λ p. p.0) p in
      let cleared = weight-clear w t.array i (entry-eq-ok (get_elem? t.array i) found) in
      cleared ∙ ap (λ u. weight w u.array + w x) table ∙ ap (λ y. weight w u.array + w y) taken
