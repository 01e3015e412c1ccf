-- ===== src/Embedder/Resolver.antt =====
-- runtime/src/embedder/version.ts: `ImportResolver`. The imports object is the list of its entries in
-- the order of `Object.keys`.
pub mod Claims
pub mod Holders
pub mod Winner
pub mod Exact
pub mod Resolution
mod Tests
use polyengine.Base.{
  ℕ, ℤ, pos, negsuc, zero, suc, Bool, true, false, ◌||◌, Option, none, some, List, [], ◌∷◌, map,
  Result, ok, err, error, ◌>>=◌, has, if◌then◌else◌,
}
use polyengine.Embedder.Text.{Text, text_equal, is_empty, lookup, put}
use polyengine.Embedder.Version.{
  Semver, ParsedId, parse_interface_id, track_key_of, as_track_key_spelling, compare_semver,
}

-- The key that holds a track, and its version unless it is the track key itself.
pub record TrackClaim : Type 0 where
  pub key : Text
  pub version : Option Semver

pub record ImportResolver (V : Type 0) : Type 0 where
  pub exact : List (Text × V)
  pub tracks : List (Text × TrackClaim)
  pub unversioned : List (Text × Text)

pub is_positive : ℤ → Bool
is_positive (pos zero) = false
is_positive (pos (suc n)) = true
is_positive (negsuc n) = false

pub has_value {ℓ} : {A : Type ℓ} → Option A → Bool
has_value none = false
has_value (some a) = true

-- The key that serves an import, with its value.
abbrev pub Resolution : Type 0 → Type 0
Resolution V = Option (Text × Option V)

module _ {V : Type 0} where
  pub empty_resolver : ImportResolver V
  empty_resolver = record { exact = []; tracks = []; unversioned = [] }

  pub hold : Text → TrackClaim → ImportResolver V → ImportResolver V
  hold track c r = record r { tracks = put track c r.tracks }

  -- A claim on a track that another one holds, by their versions.
  pub contest :
      Text
      → TrackClaim
      → ImportResolver V
      → Option Semver
      → Option Semver
      → Result (ImportResolver V)
  contest track c r none none = err (error "compatibility track is claimed twice")
  contest track c r none (some new) = err (error "import registration is ambiguous")
  contest track c r (some held) none = err (error "import registration is ambiguous")
  contest track c r (some held) (some new) =
      ok (if is_positive (compare_semver new held) then hold track c r else r)

  pub claim_over :
      Text → TrackClaim → ImportResolver V → Option TrackClaim → Result (ImportResolver V)
  claim_over track c r none = ok (hold track c r)
  claim_over track c r (some held) = contest track c r held.version c.version

  pub claim : Text → TrackClaim → ImportResolver V → Result (ImportResolver V)
  claim track c r = claim_over track c r (lookup track r.tracks)

  pub claim_version : Text → Semver → ImportResolver V → Option Text → Result (ImportResolver V)
  claim_version key v r none = ok r
  claim_version key v r (some track) = claim track (record { key = key; version = some v }) r

  pub register_version :
      Text → ParsedId → ImportResolver V → Option Semver → Result (ImportResolver V)
  register_version key p r none = ok r
  register_version key p r (some v) = claim_version key v r (track_key_of p.base v)

  pub register_parsed : Text → ParsedId → ImportResolver V → Option Text → Result (ImportResolver V)
  register_parsed key p r none = ok (
      if has b'/' p.base || has b':' p.base
      then record r { unversioned = put p.base key r.unversioned }
      else r)
  register_parsed key p r (some version) =
      if text_equal version (b'0' ∷ [])
      then err (error "'@0' is not a compatibility track")
      else register_version key p r p.semver

  pub register_spelled : Text → ImportResolver V → Option Text → Result (ImportResolver V)
  register_spelled key r (some track) = claim track (record { key = key; version = none }) r
  register_spelled key r none = let p = parse_interface_id key in register_parsed key p r p.version

  pub register : Text → ImportResolver V → Result (ImportResolver V)
  register key r = register_spelled key r (as_track_key_spelling key)

  pub add_entry : Text → V → ImportResolver V → Result (ImportResolver V)
  add_entry key value r =
      if has_value (lookup key r.exact)
      then err (error "duplicate import key")
      else register key (record r { exact = put key value r.exact })

  -- The constructor.
  pub new_resolver : List (Text × V) → ImportResolver V → Result (ImportResolver V)
  new_resolver [] r = ok r
  new_resolver ((key, value) ∷ entries) r = do r' ← add_entry key value r; new_resolver entries r'

  pub base_of : Text × V → Text
  base_of (key, value) = let p = parse_interface_id key in p.base

  pub any_base : Text → List (Text × V) → Bool
  any_base base [] = false
  any_base base (entry ∷ entries) = text_equal (base_of entry) base || any_base base entries

  pub unserved : Option Text → Result (Resolution V)
  unserved (some key) = err (error "import is versioned but its registration is not")
  unserved none = ok none

  pub serve : ImportResolver V → ParsedId → Option TrackClaim → Result (Resolution V)
  serve r p (some c) = ok (some (c.key, lookup c.key r.exact))
  serve r p none = unserved (lookup p.base r.unversioned)

  pub claim_at : ImportResolver V → Option Text → Option TrackClaim
  claim_at r none = none
  claim_at r (some track) = lookup track r.tracks

  pub resolve_unversioned : ImportResolver V → ParsedId → Option Text → Result (Resolution V)
  resolve_unversioned r p (some version) = ok none
  resolve_unversioned r p none =
      if any_base p.base r.exact
      then err (error "import is unversioned but its registrations are versioned")
      else ok none

  pub resolve_parsed : ImportResolver V → ParsedId → Option Semver → Result (Resolution V)
  resolve_parsed r p (some v) = serve r p (claim_at r (track_key_of p.base v))
  resolve_parsed r p none = resolve_unversioned r p p.version

  pub resolve_inexact : ImportResolver V → Text → Option V → Result (Resolution V)
  resolve_inexact r id (some value) = ok (some (id, some value))
  resolve_inexact r id none = let p = parse_interface_id id in resolve_parsed r p p.semver

  pub resolve : ImportResolver V → Text → Result (Resolution V)
  resolve r id = resolve_inexact r id (lookup id r.exact)
