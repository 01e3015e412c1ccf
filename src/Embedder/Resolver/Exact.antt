-- ===== src/Embedder/Resolver/Exact.antt =====
-- The entries that the resolver keeps.
use polyengine.Base.{
  ◌≡◌, refl, sym, ap, ◌∙◌, inl, inr, Option, none, some, [], ◌∷◌, ok, ok_injective, if-cases, arith,
}
use polyengine.Embedder.Text.{Text, text_equal, lookup}
use polyengine.Embedder.Version.{
  Semver, ParsedId, parse_interface_id, track_key_of, as_track_key_spelling, compare_semver,
}
use polyengine.Embedder.Resolver.{
  TrackClaim, ImportResolver, is_positive, hold, contest, claim_over, claim, claim_version,
  register_version, register_parsed, register_spelled, register,
}

module _ {V : Type 0} where
  contest-exact :
      (track : Text) (c : TrackClaim) (r r' : ImportResolver V) (old new : Option Semver)
      → contest track c r old new ≡ ok r'
      → r'.exact ≡ r.exact
  unfolding contest hold
  contest-exact track c r r' none none e = cc
  contest-exact track c r r' none (some w) e = cc
  contest-exact track c r r' (some v) none e = cc
  contest-exact track c r r' (some v) (some w) e =
      elim (if-cases (is_positive (compare_semver w v)) (ok_injective e)) [
        | inl (_, made) ↦ ap (λ q. q.exact) (sym made)
        | inr (_, made) ↦ ap (λ q. q.exact) (sym made)
      ]

  claim_over-exact :
      (track : Text) (c : TrackClaim) (r r' : ImportResolver V) (holder : Option TrackClaim)
      → claim_over track c r holder ≡ ok r'
      → r'.exact ≡ r.exact
  unfolding claim_over hold
  claim_over-exact track c r r' none e = ap (λ q. q.exact) (sym (ok_injective e))
  claim_over-exact track c r r' (some h) e = contest-exact track c r r' h.version c.version e

  claim-exact :
      (track : Text) (c : TrackClaim) (r r' : ImportResolver V)
      → claim track c r ≡ ok r'
      → r'.exact ≡ r.exact
  unfolding claim
  claim-exact track c r r' e = claim_over-exact track c r r' (lookup track r.tracks) e

  version-exact :
      (key : Text) (v : Semver) (r r' : ImportResolver V) (track : Option Text)
      → claim_version key v r track ≡ ok r'
      → r'.exact ≡ r.exact
  unfolding claim_version
  version-exact key v r r' none e = ap (λ q. q.exact) (sym (ok_injective e))
  version-exact key v r r' (some track) e = claim-exact track _ r r' e

  parsed-exact :
      (key : Text) (p : ParsedId) (r r' : ImportResolver V) (version : Option Text)
      (v : Option Semver)
      → p.semver ≡ v
      → register_parsed key p r version ≡ ok r'
      → r'.exact ≡ r.exact
  unfolding register_parsed register_version
  parsed-exact key p r r' none v s e = ground arith
  parsed-exact key p r r' (some version) none s e =
      elim (if-cases (text_equal version (b'0' ∷ [])) e) [
        | inl (_, f) ↦ cc
        | inr (_, f) ↦
            ap (λ q. q.exact) (sym (ok_injective (ap (register_version key p r) (sym s) ∙ f)))
      ]
  parsed-exact key p r r' (some version) (some v) s e =
      elim (if-cases (text_equal version (b'0' ∷ [])) e) [
        | inl (_, f) ↦ cc
        | inr (_, f) ↦
            version-exact key v r r' (track_key_of p.base v)
              (ap (register_version key p r) (sym s) ∙ f)
      ]

  spelled-exact :
      (key : Text) (r r' : ImportResolver V) (track : Option Text)
      → register_spelled key r track ≡ ok r'
      → r'.exact ≡ r.exact
  unfolding register_spelled
  spelled-exact key r r' none e =
      let p = parse_interface_id key in parsed-exact key p r r' p.version p.semver refl e
  spelled-exact key r r' (some track) e = claim-exact track _ r r' e

  pub register-exact :
      (key : Text) (r r' : ImportResolver V) → register key r ≡ ok r' → r'.exact ≡ r.exact
  unfolding register
  register-exact key r r' e = spelled-exact key r r' (as_track_key_spelling key) e
