-- ===== src/Embedder/Casing.antt =====
-- runtime/src/embedder/casing.ts: the identifiers of WIT labels, and leaf names that carry a resource.
mod Leaves
mod Tests
use polyengine.Base.{
  ℕ, Bool, true, false, not, ◌&&◌, ◌||◌, Option, none, some, List, [], ◌∷◌, ◌++◌, Result, ok, err,
  error, leb, ◌==◌, has, if◌then◌else◌,
}
use polyengine.Embedder.Text.{
  Text, units, text_equal, is_empty, take_while, drop_while, all_of, split_on,
}

-- `s[0].toUpperCase() + s.slice(1)`; `toUpperCase` of one unit is a parameter.
pub upper_first : (ℕ → Text) → Text → Text
upper_first upper [] = []
upper_first upper (c ∷ cs) = upper c ++ cs

pub join_upper : (ℕ → Text) → List Text → Text
join_upper upper [] = []
join_upper upper (t ∷ ts) = upper_first upper t ++ join_upper upper ts

pub camel_parts : (ℕ → Text) → List Text → Text
camel_parts upper [] = []
camel_parts upper (t ∷ ts) = t ++ join_upper upper ts

pub camel_case : (ℕ → Text) → Text → Text
camel_case upper label = camel_parts upper (split_on b'-' label)

pub pascal_case : (ℕ → Text) → Text → Text
pascal_case upper label = join_upper upper (split_on b'-' label)

pub data LeafName : Type 0 where
  plain : Text → LeafName
  constructor_of : Text → LeafName
  method : Text → Text → LeafName
  static : Text → Text → LeafName

-- The units of the class `[a-z-]`, and those that `.` matches.
pub is_tag_unit : ℕ → Bool
is_tag_unit c = (leb b'a' c && leb c b'z') || (c == b'-')

pub is_dot_unit : ℕ → Bool
is_dot_unit c = not ((c == 10) || (c == 13) || (c == 0x2028) || (c == 0x2029))

-- The expression `MANGLED`: the tag and the rest.
pub after_tag : Text → Text → Option (Text × Text)
after_tag tag [] = none
after_tag tag (c ∷ rest) =
    if not (is_empty tag) && ((c == b']') && all_of is_dot_unit rest)
    then some (tag, rest)
    else none

pub mangled : Text → Option (Text × Text)
mangled [] = none
mangled (c ∷ cs) =
    if c == b'[' then after_tag (take_while is_tag_unit cs) (drop_while is_tag_unit cs) else none

-- The text before and after the first place of a unit.
pub around_first : ℕ → Option (Text × Text) → Option (Text × Text)
around_first c none = none
around_first c (some (before, after)) = some (c ∷ before, after)

pub split_at_first : ℕ → Text → Option (Text × Text)
split_at_first s [] = none
split_at_first s (c ∷ cs) =
    let rest = split_at_first s cs in if c == s then some ([], cs) else around_first c rest

pub unrecognized : Result LeafName
unrecognized = err (error "unrecognized mangled export/import name")

pub parse_member : (Text → Text → LeafName) → Option (Text × Text) → Result LeafName
parse_member form none = unrecognized
parse_member form (some (resource, member)) =
    if has b'[' resource then unrecognized else ok (form resource member)

pub parse_tagged : Text → Text → Result LeafName
parse_tagged tag rest =
    if text_equal tag (units "constructor")
    then (if has b'[' rest then unrecognized else ok (constructor_of rest))
    else (if text_equal tag (units "method")
        then parse_member method (split_at_first b'.' rest)
        else (if text_equal tag (units "static")
            then parse_member static (split_at_first b'.' rest)
            else unrecognized))

pub parse_mangled : Text → Option (Text × Text) → Result LeafName
parse_mangled raw none = ok (plain raw)
parse_mangled raw (some (tag, rest)) = parse_tagged tag rest

pub parse_leaf_name : Text → Result LeafName
parse_leaf_name raw = parse_mangled raw (mangled raw)
