-- ===== src/Embedder/Version.antt =====
-- runtime/src/embedder/version.ts: interface ids with a version, compatibility tracks, and the order of
-- versions. Version numbers are exact here.
pub mod Order
pub mod Tracks
mod Tests
use polyengine.Base.{
  ℕ, zero, suc, ◌+◌, ◌-◌, ℤ, pos, negsuc, Bool, true, false, ◌&&◌, ◌||◌, Option, none, some, List,
  [], ◌∷◌, ◌++◌, ltb, leb, ◌==◌, if◌then◌else◌,
}
use polyengine.Embedder.Text.{
  Text, text_equal, text_lt, is_empty, is_digit, take_while, drop_while, is_numeric, number_of,
  decimal, split_on, split_at_last,
}

infixl 5 ◌>>=◌
abbrev ◌>>=◌ {ℓ κ} : {A : Type ℓ} {B : Type κ} → Option A → (A → Option B) → Option B
none >>= f = none
some a >>= f = f a

pub record Semver : Type 0 where
  pub major : ℕ
  pub minor : ℕ
  pub patch : ℕ
  pub prerelease : List Text
  pub build : Option Text

pub record ParsedId : Type 0 where
  pub base : Text
  pub version : Option Text
  pub semver : Option Semver

-- The parts of the expression `SEMVER`, each with the text that it leaves.
unfoldable pub read_number : Text → Option (ℕ × Text)
read_number t =
    let digits = take_while is_digit t in
    if is_empty digits then none else some (number_of digits, drop_while is_digit t)

unfoldable pub expect : ℕ → Text → Option Text
expect c [] = none
expect c (d ∷ ds) = if c == d then some ds else none

unfoldable pub is_identifier_unit : ℕ → Bool
is_identifier_unit c =
    is_digit c
    || (leb b'A' c && leb c b'Z')
    || (leb b'a' c && leb c b'z')
    || (c == b'.')
    || (c == b'-')

-- An optional part that one unit opens: the text behind it, which is not empty.
unfoldable pub read_part : ℕ → Text → Option (Option Text × Text)
read_part c [] = some (none, [])
read_part c (d ∷ ds) =
    if c == d
    then (let part = take_while is_identifier_unit ds in
        if is_empty part then none else some (some part, drop_while is_identifier_unit ds))
    else some (none, d ∷ ds)

unfoldable pub read_end : Text → Option (Unit {0})
read_end [] = some tt
read_end (c ∷ cs) = none

unfoldable pub identifiers : Option Text → List Text
identifiers none = []
identifiers (some t) = split_on b'.' t

unfoldable pub parse_semver : Text → Option Semver
parse_semver v = do
  (major, t₁) ← read_number v
  t₂ ← expect b'.' t₁
  (minor, t₃) ← read_number t₂
  t₄ ← expect b'.' t₃
  (patch, t₅) ← read_number t₄
  (pre, t₆) ← read_part b'-' t₅
  (build, t₇) ← read_part b'+' t₆
  _ ← read_end t₇
  some (record {
    major = major;
    minor = minor;
    patch = patch;
    prerelease = identifiers pre;
    build = build;
  })

unfoldable pub parsed : Text → Option (Text × Text) → ParsedId
parsed id none = record { base = id; version = none; semver = none }
parsed id (some (base, version)) = record {
  base = base;
  version = some version;
  semver = parse_semver version;
}

unfoldable pub parse_interface_id : Text → ParsedId
parse_interface_id id = parsed id (split_at_last b'@' id)

unfoldable pub track_key_of : Text → Semver → Option Text
track_key_of base v =
    if is_empty v.prerelease
    then (if ltb 0 v.major
        then some (base ++ b'@' ∷ decimal v.major)
        else (if ltb 0 v.minor then some (base ++ b'@' ∷ b'0' ∷ b'.' ∷ decimal v.minor) else none))
    else none

unfoldable pub track_key : Text → Option Text
track_key id = let p = parse_interface_id id in p.semver >>= λ v. track_key_of p.base v

-- `/^0\.\d+$/`
unfoldable pub is_minor_track : Text → Bool
is_minor_track (a ∷ b ∷ ds) = (a == b'0') && (b == b'.') && is_numeric ds
is_minor_track _ = false

unfoldable pub spelling : Text → Option Text → Option Semver → Option Text
spelling id none v = none
spelling id (some t) (some v) = none
spelling id (some t) none =
    if is_numeric t
    then (if text_equal t (b'0' ∷ []) then none else some id)
    else (if is_minor_track t then some id else none)

unfoldable pub as_track_key_spelling : Text → Option Text
as_track_key_spelling id = let p = parse_interface_id id in spelling id p.version p.semver

-- `a - b`
unfoldable pub difference : ℕ → ℕ → ℤ
difference a b = if leb b a then pos (a - b) else negsuc (b - a - 1)

unfoldable pub compare_identifier : Text → Text → ℤ
compare_identifier x y =
    if is_numeric x
    then (if is_numeric y then difference (number_of x) (number_of y) else negsuc 0)
    else (if is_numeric y
        then pos 1
        else (if text_equal x y then pos 0 else (if text_lt x y then negsuc 0 else pos 1)))

unfoldable pub or_else : ℤ → ℤ → ℤ
or_else (pos zero) rest = rest
or_else c rest = c

unfoldable pub compare_identifiers : List Text → List Text → ℤ
compare_identifiers [] [] = pos 0
compare_identifiers [] (y ∷ ys) = negsuc 0
compare_identifiers (x ∷ xs) [] = pos 1
compare_identifiers (x ∷ xs) (y ∷ ys) = or_else (compare_identifier x y) (compare_identifiers xs ys)

unfoldable pub compare_prerelease : List Text → List Text → ℤ
compare_prerelease [] [] = pos 0
compare_prerelease [] (y ∷ ys) = pos 1
compare_prerelease (x ∷ xs) [] = negsuc 0
compare_prerelease (x ∷ xs) (y ∷ ys) = compare_identifiers (x ∷ xs) (y ∷ ys)

unfoldable pub compare_semver : Semver → Semver → ℤ
compare_semver a b =
    if a.major == b.major
    then (if a.minor == b.minor
        then (if a.patch == b.patch
            then compare_prerelease a.prerelease b.prerelease
            else difference a.patch b.patch)
        else difference a.minor b.minor)
    else difference a.major b.major
