-- ===== src/Cabi/Table/Entries.antt =====
-- Lists of nullable entries.
use polyengine.Base.{
  ℕ, zero, suc, ◌+◌, ◌≡◌, Option, none, some, List, [], ◌∷◌, ◌++◌, arith, length, get_elem?, set,
}
use polyengine.Cabi.Table.{live_entries}

module _ {ℓ} {T : Type ℓ} where
  abbrev pub live_count : List (Option T) → ℕ
  live_count es = length (live_entries es)

  pub live_count-append :
      (es : List (Option T)) (e : T) → live_count (es ++ some e ∷ []) ≡ live_count es + 1
  unfolding live_entries
  live_count-append [] e = omega arith
  live_count-append (none ∷ es) e = live_count-append es e
  live_count-append (some x ∷ es) e = omega (arith, live_count-append es e)

  pub live_count-fill :
      (es : List (Option T)) (i : ℕ) (e : T)
      → get_elem? es i ≡ some none
      → live_count (set es i (some e)) ≡ live_count es + 1
  unfolding live_entries
  live_count-fill [] i e h = cc
  live_count-fill (none ∷ es) zero e h = omega arith
  live_count-fill (some x ∷ es) zero e h = cc
  live_count-fill (none ∷ es) (suc i) e h = live_count-fill es i e h
  live_count-fill (some x ∷ es) (suc i) e h = omega (arith, live_count-fill es i e h)

  pub live_count-clear :
      (es : List (Option T)) (i : ℕ) {e : T}
      → get_elem? es i ≡ some (some e)
      → live_count es ≡ live_count (set es i none) + 1
  unfolding live_entries
  live_count-clear [] i h = cc
  live_count-clear (none ∷ es) zero h = cc
  live_count-clear (some x ∷ es) zero h = omega arith
  live_count-clear (none ∷ es) (suc i) h = live_count-clear es i h
  live_count-clear (some x ∷ es) (suc i) h = omega (arith, live_count-clear es i h)
