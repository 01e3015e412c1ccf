-- ===== src/Task/Subtask/Packed.antt =====
-- `packSubtaskResult` and `unpackSubtaskResult`.
use Prim.Native.Nat.{bit_or-bitwise}
use polyengine.Base.{
  ℕ, ◌+◌, ◌-◌, ◌*◌, ◌%◌, ◌^◌, ◌<◌, ◌≤◌, ◌≡◌, refl, ap, ap₂, Returns, Returns-assert, lt→ltb, le→leb,
  and_iff, bit_or, arith, ◌∙◌,
}
use polyengine.Base.Bits.{bit_and_mask}
use polyengine.Task.Subtask.{SubtaskState, state_number, pack_subtask_result, unpack_subtask_result}

-- The low four bits of `16 * q` are free.
or_state :
    (state : SubtaskState) (q : ℕ)
    → bit_or (state_number state) (q * 16) ≡ state_number state + q * 16
unfolding state_number
or_state SubtaskState.starting q = simp bit_or-bitwise (omega arith)
or_state SubtaskState.started q = simp bit_or-bitwise (omega arith)
or_state SubtaskState.returned q = simp bit_or-bitwise (omega arith)
or_state SubtaskState.cancelled_before_started q = simp bit_or-bitwise (omega arith)
or_state SubtaskState.cancelled_before_returned q = simp bit_or-bitwise (omega arith)

state_number_lt : (state : SubtaskState) → state_number state < 5
unfolding state_number
state_number_lt SubtaskState.starting = omega arith
state_number_lt SubtaskState.started = omega arith
state_number_lt SubtaskState.returned = omega arith
state_number_lt SubtaskState.cancelled_before_started = omega arith
state_number_lt SubtaskState.cancelled_before_returned = omega arith

packed_word :
    (state : SubtaskState) (i : ℕ)
    → i ≤ 2 ^ 28 - 1
    → bit_or (state_number state) (i * 2 ^ 4 % 2 ^ 32) % 2 ^ 32 ≡ state_number state + i * 16
packed_word state i h =
    let fits : i * 2 ^ 4 % 2 ^ 32 ≡ i * 16 = omega arith in
    rw (fits, or_state state i) (omega (arith, state_number_lt state))

unpack_word : (n i : ℕ) → n < 16 → unpack_subtask_result (n + i * 16) ≡ (n, i)
unfolding unpack_subtask_result
unpack_word n i h = ap₂ (λ a b. (a, b)) (bit_and_mask 4 (n + i * 16) ∙ omega arith) (omega arith)

-- Packing a state with an index from 1 to 2^28 - 1 succeeds, the result is a 32-bit word, and
-- unpacking it gives the number of the state and the index.
pub unpack-pack :
    (state : SubtaskState) (i : ℕ)
    → 0 < i
    → i ≤ 2 ^ 28 - 1
    → Returns
        (λ p. (p < 2 ^ 32) × (unpack_subtask_result p ≡ (state_number state, i)))
        (pack_subtask_result (state_number state) i)
unfolding pack_subtask_result
unpack-pack state i low high =
    let small = state_number_lt state in
    let word = packed_word state i high in
    Returns-assert _ _ _ _ ((and_iff _ _).1 (lt→ltb _ _ low, le→leb _ _ high)) (
      Returns-assert _ _ _ _ (lt→ltb _ _ (omega arith))
        (_, refl, (omega arith, ap unpack_subtask_result word ∙ unpack_word _ i (omega arith))))
