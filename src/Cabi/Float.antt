-- ===== src/Cabi/Float.antt =====
-- runtime/src/cabi/float.ts: floats and their bit patterns. What the code uses of JavaScript's
-- numbers and of `DataView` is the record `Floats`.
pub mod Sample
use polyengine.Base.{
  ℕ, ◌^◌, ◌<◌, ◌≡◌, sym, ◌∙◌, Bool, true, false, if◌then◌else◌, arith, Bool-cases, inl, inr,
}

-- `Number` as the value of a float lane. `get` reads a float out of a bit pattern and `set` writes
-- its bit pattern. A float that `set` rounds is not `IsFloat32`; `nought`, the
-- number 0, is one. JavaScript shows one NaN.
pub record Floats : Type 1 where
  pub Number : Type 0
  pub nan : Number
  pub nought : Number
  pub is_nan : Number → Bool
  pub IsFloat32 : Number → Type 0
  pub get_float32 : ℕ → Number
  pub get_float64 : ℕ → Number
  pub set_float32 : Number → ℕ
  pub set_float64 : Number → ℕ
  pub nought-IsFloat32 : IsFloat32 nought
  pub is_nan-nan : is_nan nan ≡ true
  pub eq-nan : (f : Number) → is_nan f ≡ true → f ≡ nan
  pub get_float32-nan : is_nan (get_float32 0x7fc00000) ≡ true
  pub get_float64-nan : is_nan (get_float64 0x7ff8000000000000) ≡ true
  pub get-set32 : (f : Number) → is_nan f ≡ false → IsFloat32 f → get_float32 (set_float32 f) ≡ f
  pub get-set64 : (f : Number) → is_nan f ≡ false → get_float64 (set_float64 f) ≡ f
  pub set_float32-lt : (f : Number) → set_float32 f < 2 ^ 32
  pub set_float64-lt : (f : Number) → set_float64 f < 2 ^ 64

abbrev pub canonical_float32_nan : ℕ
canonical_float32_nan = 0x7fc00000

abbrev pub canonical_float64_nan : ℕ
canonical_float64_nan = 0x7ff8000000000000

module _ (fl : Floats) where
  open fl use {Number, is_nan, get_float32, get_float64, set_float32, set_float64}

  unfoldable pub canonicalize_nan32 : Number → Number
  canonicalize_nan32 f = if is_nan f then get_float32 canonical_float32_nan else f

  unfoldable pub canonicalize_nan64 : Number → Number
  canonicalize_nan64 f = if is_nan f then get_float64 canonical_float64_nan else f

  pub decode_i32_as_float : ℕ → Number
  decode_i32_as_float i = canonicalize_nan32 (get_float32 i)

  pub decode_i64_as_float : ℕ → Number
  decode_i64_as_float i = canonicalize_nan64 (get_float64 i)

  pub encode_float_as_i32 : Number → ℕ
  encode_float_as_i32 f = if is_nan f then canonical_float32_nan else set_float32 f

  pub encode_float_as_i64 : Number → ℕ
  encode_float_as_i64 f = if is_nan f then canonical_float64_nan else set_float64 f

  pub canonicalize_nan32_lem : (f : Number) → canonicalize_nan32 f ≡ f
  unfolding canonicalize_nan32
  canonicalize_nan32_lem f = elim (Bool-cases (is_nan f)) [
    | inl h ↦ rw h (fl.eq-nan _ fl.get_float32-nan ∙ sym (fl.eq-nan f h))
    | inr h ↦ rw h
  ]

  pub canonicalize_nan64_lem : (f : Number) → canonicalize_nan64 f ≡ f
  unfolding canonicalize_nan64
  canonicalize_nan64_lem f = elim (Bool-cases (is_nan f)) [
    | inl h ↦ rw h (fl.eq-nan _ fl.get_float64-nan ∙ sym (fl.eq-nan f h))
    | inr h ↦ rw h
  ]

  -- JavaScript shows one NaN, so neither the canonical one nor its literal is another float.
  pub decode_i32_as_float-get : (i : ℕ) → decode_i32_as_float i ≡ get_float32 i
  unfolding decode_i32_as_float
  decode_i32_as_float-get i = canonicalize_nan32_lem (get_float32 i)

  pub decode_i64_as_float-get : (i : ℕ) → decode_i64_as_float i ≡ get_float64 i
  unfolding decode_i64_as_float
  decode_i64_as_float-get i = canonicalize_nan64_lem (get_float64 i)

  pub nan_literal : (f : Number) → (if is_nan f then fl.nan else f) ≡ f
  nan_literal f = elim (Bool-cases (is_nan f)) [ inl h ↦ rw h (sym (fl.eq-nan f h)) | inr h ↦ rw h ]

  -- A float32, NaN included, is read back from the 32 bits that it is encoded as.
  pub decode-encode32 :
      (f : Number)
      → fl.IsFloat32 f
      → (decode_i32_as_float (encode_float_as_i32 f) ≡ f) × (encode_float_as_i32 f < 2 ^ 32)
  unfolding decode_i32_as_float encode_float_as_i32
  decode-encode32 f single = elim (Bool-cases (is_nan f)) [
    | inl h ↦ rw h (
      canonicalize_nan32_lem _ ∙ fl.eq-nan _ fl.get_float32-nan ∙ sym (fl.eq-nan f h),
      omega arith,
    )
    | inr h ↦ rw h (canonicalize_nan32_lem _ ∙ fl.get-set32 f h single, fl.set_float32-lt f)
  ]

  -- A float64, NaN included, is read back from the 64 bits that it is encoded as.
  pub decode-encode64 :
      (f : Number)
      → (decode_i64_as_float (encode_float_as_i64 f) ≡ f) × (encode_float_as_i64 f < 2 ^ 64)
  unfolding decode_i64_as_float encode_float_as_i64
  decode-encode64 f = elim (Bool-cases (is_nan f)) [
    | inl h ↦ rw h (
      canonicalize_nan64_lem _ ∙ fl.eq-nan _ fl.get_float64-nan ∙ sym (fl.eq-nan f h),
      omega arith,
    )
    | inr h ↦ rw h (canonicalize_nan64_lem _ ∙ fl.get-set64 f h, fl.set_float64-lt f)
  ]
