-- ===== src/Embedder/Version/Tracks.antt =====
-- What a compatibility track key tells of the versions on it.
use polyengine.Base.{
  ℕ, ◌<◌, ◌≡◌, ◌≢◌, refl, sym, ap, ◌∙◌, ◌⊎◌, inl, inr, true, false, not, none, some, [], ◌∷◌, ◌++◌,
  arith, ltb, ltb→lt, ◌==◌, if-cases, Bool-cases, and_iff, subst,
}
use polyengine.Embedder.Text.{
  Text, text_equal, is_empty, is_digit, take_while, drop_while, all_of, is_numeric, number_of,
  number_from, decimal, split_at_last,
}
use polyengine.Embedder.Text.Lemmas.{
  text_equal-eq, take_while-all, decimal-number, decimal-numeric, split_at_last-append,
}
use polyengine.Embedder.Version.{
  Semver, read_number, expect, parse_semver, parsed, parse_interface_id, track_key_of,
  is_minor_track, spelling, as_track_key_spelling,
}

-- The text behind the `@` in the track key of a version.
unfoldable pub IsTrackOf : Semver → Text → Type 0
IsTrackOf v t =
    ((0 < v.major) × (t ≡ decimal v.major))
    ⊎ ((v.major ≡ 0) × (0 < v.minor) × (t ≡ b'0' ∷ b'.' ∷ decimal v.minor))

some_injective : {A : Type 0} {x y : A} → some x ≡ some y → x ≡ y
some_injective e = cc

pub track_key_of-eq-some :
    (base : Text) (v : Semver) {k : Text}
    → track_key_of base v ≡ some k
    → (t : Text) × (k ≡ base ++ b'@' ∷ t) × IsTrackOf v t
unfolding track_key_of IsTrackOf
track_key_of-eq-some base v e = elim (if-cases (is_empty v.prerelease) e) [
  | inl (released, f) ↦ elim (if-cases (ltb 0 v.major) f) [
    | inl (h, g) ↦ (decimal v.major, sym (some_injective g), inl (ltb→lt 0 _ h, refl))
    | inr (h, g) ↦ elim (if-cases (ltb 0 v.minor) g) [
      | inl (k, w) ↦ (
        b'0' ∷ b'.' ∷ decimal v.minor,
        sym (some_injective w),
        inr (ground arith, ltb→lt 0 _ k, refl),
      )
      | inr (k, w) ↦ cc
    ]
  ]
  | inr (_, f) ↦ cc
]

digits-no_at : (t : Text) → all_of is_digit t ≡ true → all_of (λ c. not (c == b'@')) t ≡ true
unfolding all_of is_digit
digits-no_at [] h = refl
digits-no_at (c ∷ cs) h =
    let (first, rest) = (and_iff (is_digit c) (all_of is_digit cs)).0 h in
    (and_iff (not (c == b'@')) _).1 (ground arith, digits-no_at cs rest)

track-no_at : (v : Semver) (t : Text) → IsTrackOf v t → all_of (λ c. not (c == b'@')) t ≡ true
unfolding IsTrackOf all_of
track-no_at v t (inl (h, e)) = rw e (digits-no_at _ (decimal-number v.major).1)
track-no_at v t (inr (z, h, e)) = rw e (digits-no_at _ (decimal-number v.minor).1)

read_number-decimal : (n : ℕ) → read_number (decimal n) ≡ some (n, [])
unfolding read_number
read_number-decimal n =
    let (value, digits) = decimal-number n in
    let (t, d) = take_while-all is_digit (decimal n) digits in
    rw (t, d, (decimal-numeric n).1, value) refl

read_number_zero : (ds : Text) → read_number (b'0' ∷ b'.' ∷ ds) ≡ some (0, b'.' ∷ ds)
unfolding read_number take_while drop_while is_digit is_empty number_of number_from
read_number_zero ds = refl

-- A track key is no full version: it ends where the next `.` should stand.
track-not_semver : (v : Semver) (t : Text) → IsTrackOf v t → parse_semver t ≡ none
unfolding IsTrackOf parse_semver expect
track-not_semver v t (inl (h, e)) = rw (e, read_number-decimal v.major) refl
track-not_semver v t (inr (z, h, e)) =
    rw (e, read_number_zero (decimal v.minor), read_number-decimal v.minor) refl

decimal-not_zero : (n : ℕ) → 0 < n → text_equal (decimal n) (b'0' ∷ []) ≡ false
unfolding number_of number_from
decimal-not_zero n h = elim (Bool-cases (text_equal (decimal n) (b'0' ∷ []))) [
  | inl e ↦
      let zero_value : 0 ≡ n = sym (ap number_of (text_equal-eq _ _ e)) ∙ (decimal-number n).0 in
      absurd (omega arith)
  | inr e ↦ e
]

-- The parts of a track key.
track-parse :
    (base : Text) (v : Semver) (t : Text)
    → IsTrackOf v t
    → parse_interface_id (base ++ b'@' ∷ t)
      ≡ record { base = base; version = some t; semver = none }
unfolding parse_interface_id parsed
track-parse base v t h =
    rw (split_at_last-append b'@' base t (track-no_at v t h), track-not_semver v t h) refl

spelling-track :
    (id : Text) (v : Semver) (t : Text) → IsTrackOf v t → spelling id (some t) none ≡ some id
unfolding IsTrackOf spelling is_minor_track is_numeric all_of is_digit
spelling-track id v t (inl (h, e)) =
    rw (e, (decimal-numeric v.major).0, decimal-not_zero v.major h) refl
spelling-track id v t (inr (z, h, e)) = rw (e, (decimal-numeric v.minor).0) refl

-- Two versions of one track have the same major version and, if that is 0, the same minor version.
unfoldable pub Compatible : Semver → Semver → Type 0
Compatible v w = (v.major ≡ w.major) × ((0 < v.major) ⊎ (v.minor ≡ w.minor))

decimal_injective : (m n : ℕ) → decimal m ≡ decimal n → m ≡ n
decimal_injective m n e = sym (decimal-number m).0 ∙ ap number_of e ∙ (decimal-number n).0

decimal-not_minor : (n : ℕ) (ds : Text) → decimal n ≢ b'0' ∷ b'.' ∷ ds
unfolding is_numeric all_of is_digit
decimal-not_minor n ds e = let numeric = sym (decimal-numeric n).0 ∙ ap is_numeric e in cc

track-Compatible : (v w : Semver) (t : Text) → IsTrackOf v t → IsTrackOf w t → Compatible v w
unfolding IsTrackOf Compatible
track-Compatible v w t (inl (h, e)) (inl (k, f)) =
    (decimal_injective v.major w.major (sym e ∙ f), inl h)
track-Compatible v w t (inl (h, e)) (inr (z, k, f)) =
    absurd (decimal-not_minor v.major _ (sym e ∙ f))
track-Compatible v w t (inr (z, h, e)) (inl (k, f)) =
    absurd (decimal-not_minor w.major _ (sym f ∙ e))
track-Compatible v w t (inr (z, h, e)) (inr (y, k, f)) =
    (z ∙ sym y, inr (decimal_injective v.minor w.minor (ap after_point (sym e ∙ f))))
  where
    after_point : Text → Text
    after_point (a ∷ b ∷ ds) = ds
    after_point _ = []

-- The track key of a version is itself spelled as a track key, never as a full version, and only
-- versions of the same interface that agree in the major version and, where that is 0, in the
-- minor version have the same track key.
pub track_key_of-Compatible :
    (base base' : Text) (v w : Semver) {key : Text}
    → track_key_of base v ≡ some key
    → track_key_of base' w ≡ some key
    → (as_track_key_spelling key ≡ some key) × (base ≡ base') × Compatible v w
unfolding as_track_key_spelling
track_key_of-Compatible base base' v w {key} e f =
    let (t, ek, ht) = track_key_of-eq-some base v e in
    let (u, fk, hu) = track_key_of-eq-some base' w f in
    let apart =
      sym (split_at_last-append b'@' base t (track-no_at v t ht))
      ∙ ap (split_at_last b'@') (sym ek ∙ fk)
      ∙ split_at_last-append b'@' base' u (track-no_at w u hu) in
    let pair = some_injective apart in
    let parse = ap parse_interface_id ek ∙ track-parse base v t ht in
    (
      ap (λ p. spelling key p.version p.semver) parse ∙ spelling-track key v t ht,
      ap (λ p. p.0) pair,
      track-Compatible v w u (subst (IsTrackOf v) (ap (λ p. p.1) pair) ht) hu,
    )
