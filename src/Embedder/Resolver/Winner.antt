-- ===== src/Embedder/Resolver/Winner.antt =====
-- Who holds a track after the keys of the imports object are registered.
use polyengine.Base.{
  ◌≡◌, ◌≢◌, refl, sym, ap, subst, ◌∙◌, inl, inr, true, false, Option, none, some, List, [], ◌∷◌, ok,
  ok_injective, if◌then◌else◌, if-cases, Bool-cases, arith,
}
use polyengine.Embedder.Text.{Text, text_equal, lookup}
use polyengine.Embedder.Text.Lemmas.{text_equal-eq, text_equal_refl, lookup-put}
use polyengine.Embedder.Version.{
  Semver, ParsedId, parse_interface_id, track_key_of, as_track_key_spelling, compare_semver,
}
use polyengine.Embedder.Resolver.{
  TrackClaim, ImportResolver, is_positive, hold, contest, claim_over, claim, claim_version,
  register_version, register_parsed, register_spelled, register,
}
use polyengine.Embedder.Resolver.Claims.{
  with_version, parsed_claim, spelled_claim, claim_of, claim_of-Released, Released, above_trans,
}
use polyengine.Embedder.Resolver.Holders.{
  IsIn, NotAbove, Holder, some_pair, Holder-other, Holder-new, Holder-keep,
}

different_texts : (x y : Text) → text_equal x y ≡ false → x ≢ y
different_texts x y h e = let same = sym h ∙ ap (text_equal x) (sym e) ∙ text_equal_refl x in cc

-- Claims below the holder are below what is above it.
lower_claims :
    (v w : Semver) (t : Text) (c h : TrackClaim) (keys : List Text)
    → h.version ≡ some v
    → c.version ≡ some w
    → Released (some v)
    → Released (some w)
    → is_positive (compare_semver w v) ≡ true
    → ((k : Text) (u : Option Semver)
        → IsIn k keys
        → claim_of k ≡ some (t, u)
        → NotAbove u h.version)
    → (k : Text) (u : Option Semver) → IsIn k keys
    → claim_of k ≡ some (t, u)
    → NotAbove u c.version
lower_claims v w t c h keys ev ew hv hw high low k none i f =
    absurd (subst (NotAbove none) ev (low k none i f))
lower_claims v w t c h keys ev ew hv hw high low k (some u) i f =
    subst (NotAbove (some u)) (sym ew) (
      above_trans u v w (claim_of-Released k f) hv hw
        (subst (NotAbove (some u)) ev (low k (some u) i f)) high)

module _ {V : Type 0} where
  abbrev pub Held : ImportResolver V → List Text → Type 0
  Held r keys = (t : Text) → Holder t keys (lookup t r.tracks)

  hold-Held :
      (c : TrackClaim) (track : Text) (r : ImportResolver V) (keys : List Text)
      → claim_of c.key ≡ some (track, c.version)
      → Held r keys
      → Holder track (c.key ∷ keys) (some c)
      → Held (hold track c r) (c.key ∷ keys)
  unfolding hold
  hold-Held c track r keys mine held top t = elim (Bool-cases (text_equal track t)) [
    | inl e ↦
        subst (Holder t (c.key ∷ keys))
          (sym
            (lookup-put t track c r.tracks ∙ ap (λ b. if b then some c else lookup t r.tracks) e))
          (subst (λ t. Holder t (c.key ∷ keys) (some c)) (text_equal-eq track t e) top)
    | inr e ↦
        let apart : track ≢ t = different_texts track t e in
        subst (Holder t (c.key ∷ keys))
          (sym
            (lookup-put t track c r.tracks ∙ ap (λ b. if b then some c else lookup t r.tracks) e))
          (Holder-other t c.key keys (lookup t r.tracks) (λ u f. apart (some_pair (sym mine ∙ f)).0)
            (held t))
  ]

  -- Other claims of the track have the kind of the holder's, and are not above it.
  keep-Held :
      (c h : TrackClaim) (track : Text) (r : ImportResolver V) (keys : List Text)
      → claim_of c.key ≡ some (track, c.version)
      → Held r keys
      → lookup track r.tracks ≡ some h
      → NotAbove c.version h.version
      → Held r (c.key ∷ keys)
  keep-Held c h track r keys mine held found low t = elim (Bool-cases (text_equal track t)) [
    | inl e ↦
        let same = text_equal-eq track t e in
        subst (λ t. Holder t (c.key ∷ keys) (lookup t r.tracks)) same
          (subst (Holder track (c.key ∷ keys)) (sym found) (
            Holder-keep track c.key keys h c.version mine low
              (subst (Holder track keys) found (held track))))
    | inr e ↦
        Holder-other t c.key keys (lookup t r.tracks)
          (λ u f. different_texts track t e (some_pair (sym mine ∙ f)).0) (held t)
  ]

  contest-Held :
      (c : TrackClaim) (track : Text) (r r' : ImportResolver V) (keys : List Text) (h : TrackClaim)
      (old new : Option Semver)
      → h.version ≡ old
      → c.version ≡ new
      → claim_of c.key ≡ some (track, c.version)
      → Held r keys
      → lookup track r.tracks ≡ some h
      → contest track c r old new ≡ ok r'
      → Held r' (c.key ∷ keys)
  unfolding contest
  contest-Held c track r r' keys h none none eo en mine held found e = cc
  contest-Held c track r r' keys h none (some w) eo en mine held found e = cc
  contest-Held c track r r' keys h (some v) none eo en mine held found e = cc
  contest-Held c track r r' keys h (some v) (some w) eo en mine held found e =
      let (i, theirs, top) = subst (Holder track keys) found (held track) in
      let hv = subst Released eo (claim_of-Released h.key theirs) in
      let hw = subst Released en (claim_of-Released c.key mine) in
      elim (if-cases (is_positive (compare_semver w v)) (ok_injective e)) [
        | inl (high, made) ↦
            subst (λ q. Held q (c.key ∷ keys)) made
              (hold-Held c track r keys mine held (
                Holder-new track c keys mine
                  (lower_claims v w track c h keys eo en hv hw high top)))
        | inr (low, made) ↦
            subst (λ q. Held q (c.key ∷ keys)) made
              (keep-Held c h track r keys mine held found (
                subst (λ x. NotAbove x h.version) (sym en)
                  (subst (NotAbove (some w)) (sym eo) low)))
      ]

  -- A claim that is accepted.
  claim_over-Held :
      (c : TrackClaim) (track : Text) (r r' : ImportResolver V) (keys : List Text)
      (holder : Option TrackClaim)
      → claim_of c.key ≡ some (track, c.version)
      → Held r keys
      → lookup track r.tracks ≡ holder
      → claim_over track c r holder ≡ ok r'
      → Held r' (c.key ∷ keys)
  unfolding claim_over
  claim_over-Held c track r r' keys none mine held found e =
      let free = subst (Holder track keys) found (held track) in
      subst (λ q. Held q (c.key ∷ keys)) (ok_injective e)
        (hold-Held c track r keys mine held
          (Holder-new track c keys mine (λ k u i f. absurd (free k u i f))))
  claim_over-Held c track r r' keys (some h) mine held found e =
      contest-Held c track r r' keys h h.version c.version refl refl mine held found e

  claim-Held :
      (c : TrackClaim) (track : Text) (r r' : ImportResolver V) (keys : List Text)
      → claim_of c.key ≡ some (track, c.version)
      → Held r keys
      → claim track c r ≡ ok r'
      → Held r' (c.key ∷ keys)
  unfolding claim
  claim-Held c track r r' keys mine held e =
      claim_over-Held c track r r' keys (lookup track r.tracks) mine held refl e

  -- A key that claims nothing and leaves the tracks as they are.
  silent-Held :
      (key : Text) (r r' : ImportResolver V) (keys : List Text)
      → claim_of key ≡ none
      → r'.tracks ≡ r.tracks
      → Held r keys
      → Held r' (key ∷ keys)
  silent-Held key r r' keys silent same held t =
      subst (λ tracks. Holder t (key ∷ keys) (lookup t tracks)) (sym same)
        (Holder-other t key keys (lookup t r.tracks) (λ u f. none-some (sym silent ∙ f)) (held t))
    where
      none-some : {x : Text × Option Semver} → none ≢ some x
      none-some e = cc

  version-Held :
      (key base : Text) (v : Semver) (r r' : ImportResolver V) (keys : List Text)
      (track : Option Text)
      → claim_of key ≡ with_version v track
      → Held r keys
      → claim_version key v r track ≡ ok r'
      → Held r' (key ∷ keys)
  unfolding claim_version with_version
  version-Held key base v r r' keys none mine held e =
      silent-Held key r r' keys mine (ap (λ q. q.tracks) (sym (ok_injective e))) held
  version-Held key base v r r' keys (some track) mine held e =
      claim-Held (record { key = key; version = some v }) track r r' keys mine held e

  semver-Held :
      (key version : Text) (p : ParsedId) (r r' : ImportResolver V) (keys : List Text)
      (v : Option Semver)
      → claim_of key ≡ parsed_claim p.base (some version) v
      → Held r keys
      → register_version key p r v ≡ ok r'
      → Held r' (key ∷ keys)
  unfolding register_version parsed_claim
  semver-Held key version p r r' keys none mine held e =
      silent-Held key r r' keys mine (ap (λ q. q.tracks) (sym (ok_injective e))) held
  semver-Held key version p r r' keys (some v) mine held e =
      version-Held key p.base v r r' keys (track_key_of p.base v) mine held e

  parsed-Held :
      (key : Text) (p : ParsedId) (r r' : ImportResolver V) (keys : List Text)
      (version : Option Text)
      → claim_of key ≡ parsed_claim p.base version p.semver
      → Held r keys
      → register_parsed key p r version ≡ ok r'
      → Held r' (key ∷ keys)
  unfolding register_parsed parsed_claim
  parsed-Held key p r r' keys none mine held e = silent-Held key r r' keys mine (ground arith) held
  parsed-Held key p r r' keys (some version) mine held e =
      elim (if-cases (text_equal version (b'0' ∷ [])) e) [
        | inl (_, f) ↦ cc
        | inr (_, f) ↦ semver-Held key version p r r' keys p.semver mine held f
      ]

  spelled-Held :
      (key : Text) (r r' : ImportResolver V) (keys : List Text) (track : Option Text)
      → claim_of key ≡ spelled_claim (parse_interface_id key) track
      → Held r keys
      → register_spelled key r track ≡ ok r'
      → Held r' (key ∷ keys)
  unfolding register_spelled spelled_claim
  spelled-Held key r r' keys none mine held e =
      let p = parse_interface_id key in parsed-Held key p r r' keys p.version mine held e
  spelled-Held key r r' keys (some track) mine held e =
      claim-Held (record { key = key; version = none }) track r r' keys mine held e

  pub register-Held :
      (key : Text) (r r' : ImportResolver V) (keys : List Text)
      → Held r keys
      → register key r ≡ ok r'
      → Held r' (key ∷ keys)
  unfolding register claim_of
  register-Held key r r' keys held e =
      spelled-Held key r r' keys (as_track_key_spelling key) refl held e
