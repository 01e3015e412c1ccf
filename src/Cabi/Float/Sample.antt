-- ===== src/Cabi/Float/Sample.antt =====
-- A small type of floats that meets `Floats`.
use polyengine.Base.{ℕ, ◌^◌, ◌<◌, ◌≡◌, refl, Bool, true, false, arith, ◌==◌, if◌then◌else◌}
use polyengine.Cabi.Float.{Floats}

pub data Sample : Type 0 where
  not_a_number nought one : Sample

abbrev pub sample_is_nan : Sample → Bool
sample_is_nan not_a_number = true
sample_is_nan _ = false

abbrev pub sample_of : ℕ → ℕ → Sample
sample_of nan_bits i = if i == nan_bits then not_a_number else if i == 1 then one else nought

abbrev pub sample_bits : Sample → ℕ
sample_bits not_a_number = 5
sample_bits nought = 0
sample_bits one = 1

pub sample_bits-lt : (k : ℕ) (f : Sample) → 5 < k → sample_bits f < k
sample_bits-lt k not_a_number h = h
sample_bits-lt k nought h = omega arith
sample_bits-lt k one h = omega arith

pub sample_eq_nan : (f : Sample) → sample_is_nan f ≡ true → f ≡ not_a_number
sample_eq_nan not_a_number h = refl
sample_eq_nan nought h = cc
sample_eq_nan one h = cc

pub sample_get_set32 :
    (f : Sample) → sample_is_nan f ≡ false → sample_of 0x7fc00000 (sample_bits f) ≡ f
sample_get_set32 not_a_number h = cc
sample_get_set32 nought h = refl
sample_get_set32 one h = refl

pub sample_get_set64 :
    (f : Sample) → sample_is_nan f ≡ false → sample_of 0x7ff8000000000000 (sample_bits f) ≡ f
sample_get_set64 not_a_number h = cc
sample_get_set64 nought h = refl
sample_get_set64 one h = refl

abbrev pub samples : Floats
samples = record {
  Number = Sample;
  nan = not_a_number;
  nought = nought;
  is_nan = sample_is_nan;
  IsFloat32 = λ f. Unit;
  get_float32 = sample_of 0x7fc00000;
  get_float64 = sample_of 0x7ff8000000000000;
  set_float32 = sample_bits;
  set_float64 = sample_bits;
  nought-IsFloat32 = tt;
  is_nan-nan = refl;
  eq-nan = sample_eq_nan;
  get_float32-nan = refl;
  get_float64-nan = refl;
  get-set32 = λ f h _. sample_get_set32 f h;
  get-set64 = sample_get_set64;
  set_float32-lt = λ f. sample_bits-lt (2 ^ 32) f (omega arith);
  set_float64-lt = λ f. sample_bits-lt (2 ^ 64) f (omega arith);
}
