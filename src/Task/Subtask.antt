-- ===== src/Task/Subtask.antt =====
-- runtime/src/task/subtask.ts: the state of one call to an import. The handles that lend to
-- the call are named by their addresses, and `lends` holds the field `numLends` of each. A handle
-- whose count is 0 would go below it in the source; that no count which a call owes is 0 is shown of
-- the operations below.
pub mod Effects
pub mod Lending
pub mod Resolution
pub mod Packed
pub mod Progress
mod Tests
use polyengine.Base.{
  ℕ, ◌+◌, ◌-◌, ◌*◌, ◌/◌, ◌%◌, ◌^◌, Bool, true, false, not, ◌&&◌, ◌||◌, Option, none, some, List, [],
  ◌∷◌, ◌++◌, Result, ok, err, error, ◌>>=◌, ◌>>◌, assert, trap_if, ltb, leb, ◌==◌, if◌then◌else◌,
  length, bit_and, bit_or,
}
use polyengine.Task.Waitable
use polyengine.Task.Waitable.{EventCode, is_some}

pub data SubtaskState : Type 0 where
  starting started returned cancelled_before_started cancelled_before_returned : SubtaskState

pub state_number : SubtaskState → ℕ
state_number starting = 0
state_number started = 1
state_number returned = 2
state_number cancelled_before_started = 3
state_number cancelled_before_returned = 4

-- `resolved` of a subtask reads its state only.
unfoldable pub resolved : SubtaskState → Bool
resolved starting = false
resolved started = false
resolved _ = true

pub is_returned : SubtaskState → Bool
is_returned returned = true
is_returned _ = false

pub record Subtask {ℓ} (V : Type ℓ) : Type ℓ where
  pub state : SubtaskState
  pub flat_results : List V
  pub lenders : Option (List ℕ)

-- `numLends` of every handle.
abbrev pub Lends : Type 0
Lends = ℕ → ℕ

-- `h.numLends += 1` and `h.numLends -= 1`.
unfoldable pub raise : Lends → ℕ → Lends
raise lends h = Waitable.put lends h (lends h + 1)

pub lower : Lends → ℕ → Lends
lower lends h = Waitable.put lends h (lends h - 1)

-- `for (const h of this.lenders!) h.numLends -= 1;`
pub lower_all : Lends → List ℕ → Lends
lower_all lends [] = lends
lower_all lends (h ∷ hs) = lower_all (lower lends h) hs

pub cancelled : SubtaskState → SubtaskState
cancelled starting = cancelled_before_started
cancelled _ = cancelled_before_returned

module _ {ℓ} {V : Type ℓ} where
  unfoldable pub new : Subtask V
  new = record { state = starting; flat_results = []; lenders = some [] }

  unfoldable pub resolve_delivered : Subtask V → Result Bool
  resolve_delivered t = do
    assert (is_some t.lenders || resolved t.state) "lenders released on an unresolved subtask"
    ok (not (is_some t.lenders))

  unfoldable pub push_lender : Lends → Subtask V → ℕ → Option (List ℕ) → Result (Lends × Subtask V)
  push_lender lends t h none = err (error "lenders is null")
  push_lender lends t h (some hs) = ok (lends, record t { lenders = some (hs ++ h ∷ []) })

  unfoldable pub add_lender : Lends → Subtask V → ℕ → Result (Lends × Subtask V)
  add_lender lends t h = do
    delivered ← resolve_delivered t
    assert (not delivered && not (resolved t.state)) "addLender on a resolved subtask"
    push_lender (raise lends h) t h t.lenders

  pub resolve : Subtask V → SubtaskState → List V → Result (Subtask V)
  resolve t state flat_results = do
    assert (is_returned state || (length flat_results == 0))
        "non-RETURNED subtask resolution carries results"
    assert (not (resolved t.state)) "resolve on an already-resolved subtask"
    ok (record t { state = state; flat_results = flat_results })

  pub release : Lends → Subtask V → Option (List ℕ) → Result (Lends × Subtask V)
  release lends t none = err (error "lenders is null")
  release lends t (some hs) = ok (lower_all lends hs, record t { lenders = none })

  pub deliver_resolve : Lends → Subtask V → Result (Lends × Subtask V)
  deliver_resolve lends t = do
    delivered ← resolve_delivered t
    assert (not delivered && resolved t.state)
        "deliverResolve on an unresolved or already-delivered subtask"
    release lends t t.lenders

  pub deliver_once : Lends → Subtask V → Result (Lends × Subtask V)
  deliver_once lends t = do
    delivered ← resolve_delivered t
    if delivered then ok (lends, t) else deliver_resolve lends t

  pub unwind_lenders : Lends → Subtask V → Result (Lends × Subtask V)
  unwind_lenders lends t = do
    done ← if resolved t.state then ok t else resolve t (cancelled t.state) []
    deliver_once lends done

  -- The thunk of `setSubtaskPendingEvent`, which runs when the event is delivered.
  pub subtask_event : Lends → Subtask V → ℕ → Result ((EventCode × ℕ × ℕ) × Lends × Subtask V)
  subtask_event lends t i = do
    (lends', t') ← if resolved t.state then deliver_once lends t else ok (lends, t)
    ok ((EventCode.subtask, i, state_number t'.state), lends', t')

  -- `w` is the subtask's address as a waitable.
  pub drop : Waitable.Store → ℕ → Subtask V → Result Waitable.Store
  drop s w t = do
    delivered ← resolve_delivered t
    trap_if (not delivered) "cannot drop a subtask which has not yet resolved"
    Waitable.drop s w

pub pack_subtask_result : ℕ → ℕ → Result ℕ
pack_subtask_result state i = do
  assert (ltb 0 i && leb i (2 ^ 28 - 1)) "subtask index out of packing range"
  assert (ltb state (2 ^ 4)) "subtask state out of packing range"
  ok (bit_or state (i * 2 ^ 4 % 2 ^ 32) % 2 ^ 32)

pub unpack_subtask_result : ℕ → ℕ × ℕ
unpack_subtask_result packed = (bit_and packed 0xf, packed / 2 ^ 4)
