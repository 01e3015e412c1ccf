-- ===== src/Cabi/Table.antt =====
-- runtime/src/cabi/handles.ts: the class `Table` of component-local handle tables.
pub mod Entries
pub mod Valid
pub mod Tenure
mod Tests
use polyengine.Base.{
  ℕ, zero, suc, ◌+◌, ◌-◌, ◌^◌, Option, none, some, List, [], ◌∷◌, ◌++◌, Result, ok, err, ◌>>=◌,
  ◌>>◌, trap, assertion_error, trap_if, ltb, leb, if◌then◌else◌, length, get_elem?, set,
}

-- The last element of `free` in the source is the head of the list here.
pub record Table {ℓ} (T : Type ℓ) : Type ℓ where
  pub array : List (Option T)
  pub free : List ℕ
  pub tenure : List ℕ

abbrev pub max_length : ℕ
max_length = 2 ^ 28 - 1

-- `tenure[i] ?? 0`
abbrev pub tenure_at : List ℕ → ℕ → ℕ
tenure_at [] i = 0
tenure_at (n ∷ ns) zero = n
tenure_at (n ∷ ns) (suc i) = tenure_at ns i

module _ {ℓ} {T : Type ℓ} where
  unfoldable pub empty : Table T
  empty = record { array = none ∷ []; free = []; tenure = 0 ∷ [] }

  -- `array[i]`, out of range and null being told apart.
  unfoldable pub entry : Option (Option T) → Result T
  entry none = err (trap "table index out of range")
  entry (some none) = err (trap "table entry empty")
  entry (some (some e)) = ok e

  unfoldable pub get : Table T → ℕ → Result T
  get t i = entry (get_elem? t.array i)

  -- A popped free index, whose slot must hold null.
  unfoldable pub reuse : Table T → T → ℕ → List ℕ → Option (Option T) → Result (ℕ × Table T)
  reuse t e i free (some none) = ok (
    i,
    record {
      array = set t.array i (some e);
      free = free;
      tenure = set t.tenure i (tenure_at t.tenure i + 1);
    },
  )
  reuse t e i free _ = err (assertion_error "internal assertion failed")

  unfoldable pub add_at : Table T → T → List ℕ → Result (ℕ × Table T)
  add_at t e (i ∷ free) = reuse t e i free (get_elem? t.array i)
  add_at t e [] = do
    trap_if (ltb max_length (length t.array)) "table full"
    ok (
      length t.array,
      record { array = t.array ++ some e ∷ []; free = []; tenure = t.tenure ++ 1 ∷ [] },
    )

  unfoldable pub add : Table T → T → Result (ℕ × Table T)
  add t e = add_at t e t.free

  unfoldable pub remove : Table T → ℕ → Result (T × Table T)
  remove t i = do e ← get t i; ok (e, record t { array = set t.array i none; free = i ∷ t.free })

  pub live_entries : List (Option T) → List T
  live_entries [] = []
  live_entries (none ∷ es) = live_entries es
  live_entries (some e ∷ es) = e ∷ live_entries es

  -- The iterator.
  pub elements : Table T → List T
  elements t = live_entries t.array
