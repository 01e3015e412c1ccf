-- ===== src/Embedder/Resolver/Claims.antt =====
-- The claim that a key makes, and the order of the versions that make claims.
use polyengine.Base.{
  ℕ, zero, suc, ◌-◌, ◌≡◌, refl, sym, ap, subst, ◌∙◌, inl, inr, pos, Bool, true, false, ◌&&◌, ◌||◌,
  Option, none, some, List, [], ◌∷◌, arith, ltb, leb, ◌==◌, if-cases, Bool-cases,
}
use polyengine.Embedder.Text.{Text, is_empty}
use polyengine.Embedder.Version.{
  Semver, ParsedId, parse_interface_id, track_key_of, as_track_key_spelling, compare_semver,
  compare_prerelease, difference,
}
use polyengine.Embedder.Resolver.{is_positive}

unfoldable pub with_version : Semver → Option Text → Option (Text × Option Semver)
with_version v none = none
with_version v (some track) = some (track, some v)

unfoldable pub parsed_claim : Text → Option Text → Option Semver → Option (Text × Option Semver)
parsed_claim base none v = none
parsed_claim base (some version) none = none
parsed_claim base (some version) (some v) = with_version v (track_key_of base v)

unfoldable pub spelled_claim : ParsedId → Option Text → Option (Text × Option Semver)
spelled_claim p (some track) = some (track, none)
spelled_claim p none = parsed_claim p.base p.version p.semver

-- The track that a key claims, with its version unless the key is spelled as the track.
unfoldable pub claim_of : Text → Option (Text × Option Semver)
claim_of key = spelled_claim (parse_interface_id key) (as_track_key_spelling key)

abbrev pub Released : Option Semver → Type 0
Released none = Unit
Released (some v) = v.prerelease ≡ []

some_injective : {A : Type 0} {x y : A} → some x ≡ some y → x ≡ y
some_injective e = cc

empty_list : (ts : List Text) → is_empty ts ≡ true → ts ≡ []
unfolding is_empty
empty_list [] h = refl
empty_list (t ∷ ts) h = cc

with_version-Released :
    (v : Semver) (base : Text) {t : Text} {u : Option Semver}
    → with_version v (track_key_of base v) ≡ some (t, u)
    → (track_key_of base v ≡ some t) × (u ≡ some v) × Released u
unfolding with_version track_key_of
with_version-Released v base {t} {u} e = on_track (track_key_of base v) refl e
  where
    on_track :
        (track : Option Text)
        → track_key_of base v ≡ track
        → with_version v track ≡ some (t, u)
        → (track ≡ some t) × (u ≡ some v) × Released u
    on_track none k e = cc
    on_track (some track) k e =
        let pair = some_injective e in
        let same : u ≡ some v = sym (ap (λ p. p.1) pair) in
        (
          ap (λ p. some p.0) pair,
          same,
          subst Released (sym same) (elim (if-cases (is_empty v.prerelease) k) [
            | inl (h, _) ↦ empty_list v.prerelease h
            | inr (_, h) ↦ cc
          ]),
        )

is_positive-difference : (a b : ℕ) → is_positive (difference a b) ≡ ltb b a
unfolding difference is_positive
is_positive-difference a b = elim (Bool-cases (leb b a)) [
  | inl e ↦ rw e (positive (a - b) ∙ ground arith)
  | inr e ↦ rw e (ground arith)
]
  where
    positive : (n : ℕ) → is_positive (pos n) ≡ ltb 0 n
    positive zero = refl
    positive (suc n) = ground arith

-- The order of releases, on their three numbers.
above : Semver → Semver → Bool
above a b =
    ltb b.major a.major
    || ((a.major == b.major)
        && (ltb b.minor a.minor || ((a.minor == b.minor) && ltb b.patch a.patch)))

is_positive-compare_semver :
    (a b : Semver)
    → Released (some a)
    → Released (some b)
    → is_positive (compare_semver a b) ≡ above a b
unfolding compare_semver compare_prerelease is_positive above
is_positive-compare_semver a b h k =
    let major = is_positive-difference a.major b.major in
    let minor = is_positive-difference a.minor b.minor in
    let patch = is_positive-difference a.patch b.patch in rw (h, k) (ground arith)

-- A version that is not above `held` is not above what is above `held`.
pub above_trans :
    (u held new : Semver)
    → Released (some u)
    → Released (some held)
    → Released (some new)
    → is_positive (compare_semver u held) ≡ false
    → is_positive (compare_semver new held) ≡ true
    → is_positive (compare_semver u new) ≡ false
unfolding above
above_trans u held new hu hh hn low high =
    let low_above = sym (is_positive-compare_semver u held hu hh) ∙ low in
    let high_above = sym (is_positive-compare_semver new held hn hh) ∙ high in
    is_positive-compare_semver u new hu hn ∙ ground arith

pub above_irrefl : (u : Semver) → Released (some u) → is_positive (compare_semver u u) ≡ false
unfolding above
above_irrefl u h = is_positive-compare_semver u u h h ∙ ground arith

pub claim_of-Released :
    (key : Text) {t : Text} {u : Option Semver} → claim_of key ≡ some (t, u) → Released u
unfolding claim_of spelled_claim parsed_claim
claim_of-Released key {t} {u} e =
    let p = parse_interface_id key in by_spelling p (as_track_key_spelling key) e
  where
    by_version :
        (base : Text) (version : Option Text) (v : Option Semver)
        → parsed_claim base version v ≡ some (t, u)
        → Released u
    by_version base none v e = cc
    by_version base (some version) none e = cc
    by_version base (some version) (some v) e = (with_version-Released v base e).2

    by_spelling :
        (p : ParsedId) (track : Option Text) → spelled_claim p track ≡ some (t, u) → Released u
    by_spelling p (some track) e = subst Released (ap (λ q. q.1) (some_injective e)) tt
    by_spelling p none e = by_version p.base p.version p.semver e
