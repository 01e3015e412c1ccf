-- ===== src/Embedder/Resolver/Resolution.antt =====
-- What an import resolves to, from the entries of the imports object.
use polyengine.Base.{
  ◌≡◌, ◌≢◌, refl, sym, ap, subst, ◌∙◌, ◌⊎◌, inl, inr, false, Option, none, some, List, [], ◌∷◌, ok,
  ok_injective, >>=-eq-ok, if-cases, Bool-cases,
}
use polyengine.Embedder.Text.{Text, text_equal, lookup, put}
use polyengine.Embedder.Text.Lemmas.{text_equal-eq, lookup-put}
use polyengine.Embedder.Version.{Semver, ParsedId, parse_interface_id, track_key_of}
use polyengine.Embedder.Resolver.{
  TrackClaim, ImportResolver, has_value, empty_resolver, add_entry, new_resolver, serve, claim_at,
  resolve_parsed, resolve_inexact, resolve,
}
use polyengine.Embedder.Resolver.Claims.{claim_of}
use polyengine.Embedder.Resolver.Holders.{IsIn, NotAbove, Holder}
use polyengine.Embedder.Resolver.Winner.{Held, register-Held}
use polyengine.Embedder.Resolver.Exact.{register-exact}

module _ {V : Type 0} where
  -- The keys of the entries, the last one first, before those of `keys`.
  pub keys_onto : List (Text × V) → List Text → List Text
  keys_onto [] keys = keys
  keys_onto ((key, value) ∷ entries) keys = keys_onto entries (key ∷ keys)

  pub first_of : Option V → Option V → Option V
  first_of (some v) other = some v
  first_of none other = other

  has_value-none : (o : Option V) → has_value o ≡ false → o ≡ none
  unfolding has_value
  has_value-none none h = refl
  has_value-none (some v) h = cc

  entry_step :
      (key k : Text) (value : V) (exact entries : List (Text × V))
      → lookup key exact ≡ none
      → first_of (lookup k (put key value exact)) (lookup k entries)
        ≡ first_of (lookup k exact) (lookup k ((key, value) ∷ entries))
  unfolding first_of lookup
  entry_step key k value exact entries fresh = elim (Bool-cases (text_equal key k)) [
    | inl e ↦
        let absent = ap (λ j. lookup j exact) (sym (text_equal-eq key k e)) ∙ fresh in
        rw (lookup-put k key value exact, e, absent) refl
    | inr e ↦ rw (lookup-put k key value exact, e) refl
  ]

  first_of-none : (o : Option V) → first_of o none ≡ o
  unfolding first_of
  first_of-none none = refl
  first_of-none (some v) = refl

  new_resolver-Registers :
      (entries : List (Text × V)) (r r' : ImportResolver V) (keys : List Text)
      → Held r keys
      → new_resolver entries r ≡ ok r'
      → Held r' (keys_onto entries keys)
        × ((k : Text) → lookup k r'.exact ≡ first_of (lookup k r.exact) (lookup k entries))
  unfolding new_resolver add_entry keys_onto first_of lookup
  new_resolver-Registers [] r r' keys held e =
      let same = sym (ok_injective e) in
      subst (λ q. Held q keys × ((k : Text) → lookup k q.exact ≡ first_of (lookup k r.exact) none))
        (sym same) (held, λ k. sym (first_of-none (lookup k r.exact)))
  new_resolver-Registers ((key, value) ∷ entries) r r' keys held e =
      let (mid, added, rest) = >>=-eq-ok (add_entry key value r) _ e in
      elim (if-cases (has_value (lookup key r.exact)) added) [
        | inl (_, f) ↦ cc
        | inr (fresh, f) ↦
            let entered = record r { exact = put key value r.exact } in
            let kept = register-exact key entered mid f in
            let (all, found) =
              new_resolver-Registers entries mid r' (key ∷ keys)
                (register-Held key entered mid keys held f) rest in
            (
              all,
              λ k.
                  found k
                  ∙ ap (λ exact. first_of (lookup k exact) (lookup k entries)) kept
                  ∙ entry_step key k value r.exact entries (has_value-none _ fresh),
            )
      ]

  nobody_holds : (r : ImportResolver V) → r.tracks ≡ [] → Held r []
  unfolding lookup
  nobody_holds r e t =
      subst (λ tracks. Holder t [] (lookup t tracks)) (sym e) (λ key u i f. elim i [ ])

  pub new_resolver-Holder :
      (entries : List (Text × V)) {r : ImportResolver V}
      → new_resolver entries empty_resolver ≡ ok r
      → Held r (keys_onto entries []) × ((k : Text) → lookup k r.exact ≡ lookup k entries)
  unfolding empty_resolver first_of lookup
  new_resolver-Holder entries {r} e =
      new_resolver-Registers entries empty_resolver r [] (nobody_holds empty_resolver refl) e

  -- A key that is to serve an import of a track: it claims the track, and no other key that claims
  -- the track has a higher version, or is of another kind.
  unfoldable pub Wins : Text → List (Text × V) → Text → Type 0
  Wins t entries key =
      (w : Option Semver) × IsIn key (keys_onto entries [])
      × (claim_of key ≡ some (t, w))
      × ((k : Text) (u : Option Semver)
          → IsIn k (keys_onto entries [])
          → claim_of k ≡ some (t, u)
          → NotAbove u w)

  unfoldable pub NobodyClaims : Text → List (Text × V) → Type 0
  NobodyClaims t entries =
      (k : Text) (u : Option Semver) → IsIn k (keys_onto entries []) → claim_of k ≢ some (t, u)

  served :
      (entries : List (Text × V)) (r : ImportResolver V) (p : ParsedId) (t : Text)
      (c : Option TrackClaim)
      → Holder t (keys_onto entries []) c
      → ((k : Text) → lookup k r.exact ≡ lookup k entries)
      → ((key : Text) × Wins t entries key × (serve r p c ≡ ok (some (key, lookup key entries))))
        ⊎ NobodyClaims t entries
  unfolding serve Wins NobodyClaims
  served entries r p t none h found = inr h
  served entries r p t (some c) (i, mine, top) found =
      inl (c.key, (c.version, i, mine, top), ap (λ o. ok (some (c.key, o))) (found c.key))

  -- If the imports object is accepted, an import of a full version that it does not name exactly, on a
  -- compatibility track, is served by the entry of a key that claims the track, which is the track
  -- key itself or has the highest version of those that claim it, unless no key claims it.
  pub resolve-Wins :
      (entries : List (Text × V)) (id : Text) {r : ImportResolver V} {p : ParsedId} {v : Semver}
      {t : Text}
      → new_resolver entries empty_resolver ≡ ok r
      → lookup id entries ≡ none
      → parse_interface_id id ≡ p
      → p.semver ≡ some v
      → track_key_of p.base v ≡ some t
      → ((key : Text) × Wins t entries key × (resolve r id ≡ ok (some (key, lookup key entries))))
        ⊎ NobodyClaims t entries
  unfolding resolve resolve_inexact resolve_parsed claim_at
  resolve-Wins entries id {r} {p} {v} {t} made absent parse full track =
      let (held, found) = new_resolver-Holder entries made in
      let direct : resolve r id ≡ serve r p (lookup t r.tracks) =
        rw (found id, absent, parse, full, track) refl in
      elim (served entries r p t (lookup t r.tracks) (held t) found) [
        | inl (key, wins, e) ↦ inl (key, wins, direct ∙ e)
        | inr nobody ↦ inr nobody
      ]

  -- If the imports object is accepted, an import that it names exactly is served by that entry.
  pub resolve-exact :
      (entries : List (Text × V)) (id : Text) {r : ImportResolver V} {value : V}
      → new_resolver entries empty_resolver ≡ ok r
      → lookup id entries ≡ some value
      → resolve r id ≡ ok (some (id, some value))
  unfolding resolve resolve_inexact
  resolve-exact entries id made e = rw ((new_resolver-Holder entries made).1 id, e) refl
