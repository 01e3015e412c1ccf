-- ===== src/Task/Waitable/Joined.antt =====
-- The two sides of membership, `Waitable.wset` and `WaitableSet.elems`, agree.
use polyengine.Base.{
  ℕ, false, not, ◌&&◌, ◌||◌, Option, none, some, List, [], ◌∷◌, ◌++◌, ◌≡◌, if-elim, refl, sym, ap,
  Returns, Returns-assert, Returns-bind, ◌∙◌, ◌==◌, ==_refl, if◌then◌else◌, has, IsDistinct, arith,
  subst,
}
use polyengine.Task.Waitable.{Store, put, is_set, splice, leave, enter, join}

-- A set lists a waitable exactly when the waitable names the set, and lists it once.
unfoldable pub Joined : Store → Type 0
Joined s =
    (i : ℕ)
    → IsDistinct (s.wait_set i).elems
      × ((w : ℕ) → has w (s.wait_set i).elems ≡ is_set i (s.waitable w).wset)

pub has-splice :
    (w v : ℕ) (xs : List ℕ) → IsDistinct xs → has v (splice w xs) ≡ (not (w == v) && has v xs)
unfolding splice
has-splice w v [] d = ground arith
has-splice w v (x ∷ xs) (fresh, d) = let ih = has-splice w v xs d in grind arith

pub splice-IsDistinct : (w : ℕ) (xs : List ℕ) → IsDistinct xs → IsDistinct (splice w xs)
unfolding splice
splice-IsDistinct w [] d = tt
splice-IsDistinct w (x ∷ xs) (fresh, d) =
    if-elim IsDistinct (w == x) d (has_splice, splice-IsDistinct w xs d)
  where
    has_splice : has x (splice w xs) ≡ false
    has_splice = let e = has-splice w x xs d in ground arith

pub splice-absent : (w : ℕ) (xs : List ℕ) → has w xs ≡ false → splice w xs ≡ xs
unfolding splice
splice-absent w [] h = refl
splice-absent w (x ∷ xs) h = let ih = splice-absent w xs in grind arith

has-snoc : (v w : ℕ) (xs : List ℕ) → has v (xs ++ w ∷ []) ≡ (has v xs || (v == w))
has-snoc v w [] = ground arith
has-snoc v w (x ∷ xs) = let ih = has-snoc v w xs in grind arith

snoc-IsDistinct :
    (w : ℕ) (xs : List ℕ) → IsDistinct xs → has w xs ≡ false → IsDistinct (xs ++ w ∷ [])
snoc-IsDistinct w [] d h = (refl, tt)
snoc-IsDistinct w (x ∷ xs) (fresh, d) h =
    (let e = has-snoc x w xs in ground arith, snoc-IsDistinct w xs d (ground arith))

-- The members of set `j` after `join s w wset`.
abbrev pub moved : Store → ℕ → Option ℕ → ℕ → List ℕ
moved s w wset j =
    let others = splice w (s.wait_set j).elems in if is_set j wset then others ++ w ∷ [] else others

-- `t` is `s` without `w` in the lists of members.
Detached : Store → ℕ → Store → Type 0
Detached s w t =
    (t.waitable ≡ s.waitable) × ((j : ℕ) → (t.wait_set j).elems ≡ splice w (s.wait_set j).elems)

put-elems :
    (s : Store) (i j : ℕ) (f : List ℕ → List ℕ)
    → (put s.wait_set i (record (s.wait_set i) { elems = f (s.wait_set i).elems }) j).elems
      ≡ (if j == i then f (s.wait_set j).elems else (s.wait_set j).elems)
put-elems s i j f = grind arith

leave-Detached :
    (s : Store) (w : ℕ) (o : Option ℕ)
    → ((i : ℕ) → has w (s.wait_set i).elems ≡ is_set i o)
    → Returns (Detached s w) (leave s w o)
unfolding leave Detached
leave-Detached s w none e = (s, refl, (refl, λ j. sym (splice-absent w (s.wait_set j).elems (e j))))
leave-Detached s w (some i) e =
    Returns-assert (Detached s w) _ _ _ (e i ∙ ==_refl i) (_, refl, (refl, elems))
  where
    elems :
        (j : ℕ)
        → (put s.wait_set i
            (record (s.wait_set i) { elems = splice w (s.wait_set i).elems })
            j).elems
          ≡ splice w (s.wait_set j).elems
    elems j =
        let at = put-elems s i j (splice w) in
        let absent = splice-absent w (s.wait_set j).elems in let listed = e j in grind arith

enter-elems :
    (s : Store) (w : ℕ) (o : Option ℕ) (j : ℕ)
    → ((enter s w o).wait_set j).elems
      ≡ (if is_set j o then (s.wait_set j).elems ++ w ∷ [] else (s.wait_set j).elems)
unfolding enter
enter-elems s w none j = refl
enter-elems s w (some i) j = put-elems s i j (λ xs. xs ++ w ∷ [])

enter-waitable : (s : Store) (w : ℕ) (o : Option ℕ) → (enter s w o).waitable ≡ s.waitable
unfolding enter
enter-waitable s w none = refl
enter-waitable s w (some i) = refl

-- `t` is `s` after `w` has gone to `o`.
unfoldable pub Moved : Store → ℕ → Option ℕ → Store → Type 0
Moved s w o t =
    (t.waitable ≡ put s.waitable w (record (s.waitable w) { wset = o }))
    × ((j : ℕ) → (t.wait_set j).elems ≡ moved s w o j)

pub join-Moved :
    (s : Store) (w : ℕ) (o : Option ℕ)
    → Joined s
    → (s.waitable w).has_sync_waiter ≡ false
    → Returns (Moved s w o) (join s w o)
unfolding join Detached Joined Moved
join-Moved s w o h idle = Returns-assert _ _ _ _ (ap not idle) (
    Returns-bind (Detached s w) _ _ _ (leave-Detached s w (s.waitable w).wset (λ i. (h i).1 w))
      (λ t (same, elems). (
        _,
        refl,
        (
          enter-waitable _ w o ∙ ap (λ f. put f w (record (f w) { wset = o })) same,
          λ j. enter-elems _ w o j ∙ ap (λ xs. if is_set j o then xs ++ w ∷ [] else xs) (elems j),
        ),
      )))

has-moved :
    (s : Store) (w v j : ℕ) (o : Option ℕ)
    → Joined s
    → has v (moved s w o j)
      ≡ is_set j (put s.waitable w (record (s.waitable w) { wset = o }) v).wset
unfolding Joined
has-moved s w v j o h =
    let others = has-splice w v (s.wait_set j).elems (h j).0 in
    let last = has-snoc v w (splice w (s.wait_set j).elems) in let listed = (h j).1 v in grind arith

pub Moved-Joined : (s t : Store) (w : ℕ) (o : Option ℕ) → Joined s → Moved s w o t → Joined t
unfolding Joined Moved
Moved-Joined s t w o h (waitables, elems) j = (
  subst IsDistinct (sym (elems j))
      (if-elim IsDistinct (is_set j o) (snoc-IsDistinct w _ others absent) others),
  λ v. ap (has v) (elems j) ∙ has-moved s w v j o h ∙ ap (λ f. is_set j (f v).wset) (sym waitables),
)
  where
    others : IsDistinct (splice w (s.wait_set j).elems)
    others = splice-IsDistinct w (s.wait_set j).elems (h j).0

    absent : has w (splice w (s.wait_set j).elems) ≡ false
    absent = let e = has-splice w w (s.wait_set j).elems (h j).0 in ground arith

-- In a store where the two sides of membership agree, `join` of a waitable without a synchronous
-- waiter succeeds. The sides agree afterwards, the waitable has left the set it was in, it is
-- the last member of the set it joins, the other members keep their order, and of the waitables
-- only its own set has changed.
pub join-Joins :
    (s : Store) (w : ℕ) (o : Option ℕ)
    → Joined s
    → (s.waitable w).has_sync_waiter ≡ false
    → Returns (λ t. Joined t × Moved s w o t) (join s w o)
join-Joins s w o h idle =
    let (t, e, m) = join-Moved s w o h idle in (t, e, (Moved-Joined s t w o h m, m))
