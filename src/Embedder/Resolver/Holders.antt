-- ===== src/Embedder/Resolver/Holders.antt =====
-- Who is to hold a track among the keys that claim it.
use polyengine.Base.{
  ◌≡◌, ◌≢◌, refl, sym, ap, subst, ◌∙◌, ◌⊎◌, inl, inr, false, Option, none, some, List, [], ◌∷◌,
}
use polyengine.Embedder.Text.{Text}
use polyengine.Embedder.Version.{Semver, compare_semver}
use polyengine.Embedder.Resolver.{TrackClaim, is_positive}
use polyengine.Embedder.Resolver.Claims.{claim_of, claim_of-Released, Released, above_irrefl}

abbrev pub IsIn : Text → List Text → Type 0
IsIn key [] = ⊥
IsIn key (k ∷ keys) = (key ≡ k) ⊎ IsIn key keys

-- The first claim is not above the second one, and they are of one kind.
abbrev pub NotAbove : Option Semver → Option Semver → Type 0
NotAbove none none = Unit
NotAbove (some u) (some v) = is_positive (compare_semver u v) ≡ false
NotAbove _ _ = ⊥

-- Who is to hold a track: of the keys that claim it, one with the highest version.
abbrev pub Holder : Text → List Text → Option TrackClaim → Type 0
Holder t keys none = (key : Text) (u : Option Semver) → IsIn key keys → claim_of key ≢ some (t, u)
Holder t keys (some c) =
    IsIn c.key keys
    × (claim_of c.key ≡ some (t, c.version))
    × ((key : Text) (u : Option Semver)
        → IsIn key keys
        → claim_of key ≡ some (t, u)
        → NotAbove u c.version)

some_injective : {x y : Text × Option Semver} → some x ≡ some y → x ≡ y
some_injective e = cc

pub some_pair : {x y : Text × Option Semver} → some x ≡ some y → (x.0 ≡ y.0) × (x.1 ≡ y.1)
some_pair e = let p = some_injective e in (ap (λ p. p.0) p, ap (λ p. p.1) p)

NotAbove-refl : (u : Option Semver) → Released u → NotAbove u u
NotAbove-refl none h = tt
NotAbove-refl (some u) h = above_irrefl u h

-- A key that does not claim the track changes nothing for it.
pub Holder-other :
    (t key : Text) (keys : List Text) (c : Option TrackClaim)
    → ((u : Option Semver) → claim_of key ≢ some (t, u))
    → Holder t keys c
    → Holder t (key ∷ keys) c
Holder-other t key keys none other h = λ k u. nobody k u
  where
    nobody : (k : Text) (u : Option Semver) → IsIn k (key ∷ keys) → claim_of k ≢ some (t, u)
    nobody k u (inl e) f = other u (sym (ap claim_of e) ∙ f)
    nobody k u (inr i) f = h k u i f
Holder-other t key keys (some c) other (i, mine, top) = (inr i, mine, λ k u. rest k u)
  where
    rest :
        (k : Text) (u : Option Semver)
        → IsIn k (key ∷ keys)
        → claim_of k ≡ some (t, u)
        → NotAbove u c.version
    rest k u (inl e) f = absurd (other u (sym (ap claim_of e) ∙ f))
    rest k u (inr i) f = top k u i f

-- A new holder, below which the other claims are.
pub Holder-new :
    (t : Text) (c : TrackClaim) (keys : List Text)
    → claim_of c.key ≡ some (t, c.version)
    → ((key : Text) (u : Option Semver)
        → IsIn key keys
        → claim_of key ≡ some (t, u)
        → NotAbove u c.version)
    → Holder t (c.key ∷ keys) (some c)
Holder-new t c keys mine top = (inl refl, mine, λ k u. all k u)
  where
    all :
        (k : Text) (u : Option Semver)
        → IsIn k (c.key ∷ keys)
        → claim_of k ≡ some (t, u)
        → NotAbove u c.version
    all k u (inl e) f =
        let same = (some_pair (sym mine ∙ sym (ap claim_of e) ∙ f)).1 in
        subst (λ w. NotAbove w c.version) same
          (NotAbove-refl c.version (claim_of-Released c.key mine))
    all k u (inr i) f = top k u i f

-- The holder stays, above the new claim.
pub Holder-keep :
    (t key : Text) (keys : List Text) (c : TrackClaim) (v : Option Semver)
    → claim_of key ≡ some (t, v)
    → NotAbove v c.version
    → Holder t keys (some c)
    → Holder t (key ∷ keys) (some c)
Holder-keep t key keys c v claims low (i, mine, top) = (inr i, mine, λ k u. all k u)
  where
    all :
        (k : Text) (u : Option Semver)
        → IsIn k (key ∷ keys)
        → claim_of k ≡ some (t, u)
        → NotAbove u c.version
    all k u (inl e) f =
        subst (λ w. NotAbove w c.version) (some_pair (sym claims ∙ sym (ap claim_of e) ∙ f)).1 low
    all k u (inr i) f = top k u i f
