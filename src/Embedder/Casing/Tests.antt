-- ===== src/Embedder/Casing/Tests.antt =====
-- Labels and leaf names.
use polyengine.Base.{ℕ, ◌-◌, ◌≡◌, refl, [], ◌∷◌, ok, err, error, leb, ◌&&◌, if◌then◌else◌}
use polyengine.Embedder.Text.{
  Text, units, text_equal, is_empty, take_while, drop_while, all_of, split_on, join_first,
}
use polyengine.Embedder.Casing.{
  upper_first, join_upper, camel_parts, camel_case, pascal_case, constructor_of, method,
  is_tag_unit, is_dot_unit, after_tag, mangled, around_first, split_at_first, unrecognized,
  parse_member, parse_tagged, parse_mangled, parse_leaf_name,
}
use polyengine.Embedder.Casing.Leaves.{spell, IsLeaf, parse_leaf_name-spell}

casing_code : ℕ
unfolding text_equal is_empty take_while drop_while all_of split_on join_first upper_first
    join_upper camel_parts camel_case pascal_case is_tag_unit is_dot_unit after_tag mangled
    around_first split_at_first unrecognized parse_member parse_tagged parse_mangled parse_leaf_name
casing_code = 0

abbrev ascii_upper : ℕ → Text
ascii_upper c = (if leb b'a' c && leb c b'z' then c - 32 else c) ∷ []

camel_case-acronym :
    camel_case ascii_upper (units "outgoing-HTTP-request") ≡ units "outgoingHTTPRequest"
unfolding casing_code
camel_case-acronym = refl

pascal_case-socket : pascal_case ascii_upper (units "tcp-socket") ≡ units "TcpSocket"
unfolding casing_code
pascal_case-socket = refl

constructor_form :
    parse_leaf_name (units "[constructor]counter") ≡ ok (constructor_of (units "counter"))
unfolding casing_code
constructor_form = refl

getter_refused :
    parse_leaf_name (units "[get]foo") ≡ err (error "unrecognized mangled export/import name")
unfolding casing_code
getter_refused = refl

nested_form_refused :
    parse_leaf_name (units "[method][get]r.p")
    ≡ err (error "unrecognized mangled export/import name")
unfolding casing_code
nested_form_refused = refl

parse_leaf_name-spell_example :
    parse_leaf_name (units "[method]counter.increment")
    ≡ ok (method (units "counter") (units "increment"))
unfolding spell IsLeaf all_of is_dot_unit
parse_leaf_name-spell_example =
    parse_leaf_name-spell (method (units "counter") (units "increment")) ((refl, refl), refl, refl)
