-- ===== src/Cabi/Table/Tests.antt =====
-- A table of numbers: three entries, then one removed and its index given out again.
use polyengine.Base.{ℕ, ◌<◌, ◌≡◌, refl, none, some, [], ◌∷◌, ok, err, trap, ◌==◌, if◌then◌else◌}
use polyengine.Cabi.Table.{
  Table, tenure_at, empty, entry, get, reuse, add_at, add, remove, live_entries, elements,
}
use polyengine.Cabi.Table.Valid.{Valid, Fills, empty-Valid, add-Fills, remove-Clears}
use polyengine.Cabi.Table.Tenure.{Steps, none_taken, removed, tenure_increases}

-- What a test of the table code unfolds.
table_code : ℕ
unfolding empty entry get reuse add_at add remove live_entries elements
table_code = 0

abbrev one_entry : Table ℕ
one_entry = record { array = none ∷ some 10 ∷ []; free = []; tenure = 0 ∷ 1 ∷ [] }

abbrev two_entries : Table ℕ
two_entries = record { array = none ∷ some 10 ∷ some 20 ∷ []; free = []; tenure = 0 ∷ 1 ∷ 1 ∷ [] }

abbrev after_removal : Table ℕ
after_removal = record {
  array = none ∷ none ∷ some 20 ∷ [];
  free = 1 ∷ [];
  tenure = 0 ∷ 1 ∷ 1 ∷ [];
}

abbrev after_reuse : Table ℕ
after_reuse = record { array = none ∷ some 30 ∷ some 20 ∷ []; free = []; tenure = 0 ∷ 2 ∷ 1 ∷ [] }

first_add : add empty 10 ≡ ok (1, one_entry)
unfolding table_code
first_add = refl

second_add : add one_entry 20 ≡ ok (2, two_entries)
unfolding table_code
second_add = refl

removal : remove two_entries 1 ≡ ok (10, after_removal)
unfolding table_code
removal = refl

third_add : add after_removal 30 ≡ ok (1, after_reuse)
unfolding table_code
third_add = refl

reserved_slot : get two_entries 0 ≡ err (trap "table entry empty")
unfolding table_code
reserved_slot = refl

live_in_order : elements after_reuse ≡ 30 ∷ 20 ∷ []
unfolding table_code
live_in_order = refl

one_entry-Valid : Valid one_entry
one_entry-Valid = (add-Fills empty 10 empty-Valid first_add).0

two_entries-Valid : Valid two_entries
two_entries-Valid = (add-Fills one_entry 20 one_entry-Valid second_add).0

after_removal-Valid : Valid after_removal
after_removal-Valid = (remove-Clears two_entries 1 two_entries-Valid removal).0

add-Fills_example : Valid after_reuse × Fills after_removal 30 1 after_reuse
add-Fills_example = add-Fills after_removal 30 after_removal-Valid third_add

remove-Clears_example :
    Valid after_removal
    × (get two_entries 1 ≡ ok 10)
    × ((j : ℕ)
        → get after_removal j
          ≡ (if 1 == j then err (trap "table entry empty") else get two_entries j))
remove-Clears_example = remove-Clears two_entries 1 two_entries-Valid removal

tenure_increases_example : tenure_at two_entries.tenure 1 < tenure_at after_reuse.tenure 1
tenure_increases_example =
    tenure_increases empty 10 30 1 empty-Valid first_add
      (removed (Steps.added none_taken 20 2 second_add) 1 10 removal) third_add
