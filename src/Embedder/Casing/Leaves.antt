-- ===== src/Embedder/Casing/Leaves.antt =====
-- Leaf names are decoded as they are spelled.
use polyengine.Base.{
  ℕ, ◌≡◌, refl, Bool, true, false, some, [], ◌∷◌, ◌++◌, ok, arith, ◌==◌, ==_refl, has,
}
use polyengine.Embedder.Text.{Text, units, text_equal, is_empty, take_while, drop_while, all_of}
use polyengine.Embedder.Text.Lemmas.{all_of-append}
use polyengine.Embedder.Casing.{
  LeafName, plain, constructor_of, method, static, is_tag_unit, is_dot_unit, after_tag, mangled,
  around_first, split_at_first, parse_member, parse_tagged, parse_mangled, parse_leaf_name,
}

-- The raw name of a leaf name, in the component model's mangling.
unfoldable pub spell : LeafName → Text
spell (plain name) = name
spell (constructor_of resource) = units "[constructor]" ++ resource
spell (method resource member) = units "[method]" ++ resource ++ b'.' ∷ member
spell (static resource member) = units "[static]" ++ resource ++ b'.' ∷ member

-- A name on one line, of a resource without a bracket and, before a member, without a point.
abbrev IsResource : Text → Type 0
IsResource t = (has b'[' t ≡ false) × (all_of is_dot_unit t ≡ true)

abbrev pub opens_bracket : Text → Bool
opens_bracket [] = false
opens_bracket (c ∷ cs) = c == b'['

unfoldable pub IsLeaf : LeafName → Type 0
IsLeaf (plain name) = opens_bracket name ≡ false
IsLeaf (constructor_of resource) = IsResource resource
IsLeaf (method resource member) =
    IsResource resource × (has b'.' resource ≡ false) × (all_of is_dot_unit member ≡ true)
IsLeaf (static resource member) =
    IsResource resource × (has b'.' resource ≡ false) × (all_of is_dot_unit member ≡ true)

split_at_first-append :
    (s : ℕ) (t after : Text) → has s t ≡ false → split_at_first s (t ++ s ∷ after) ≡ some (t, after)
unfolding split_at_first around_first
split_at_first-append s [] after h = rw (==_refl s) refl
split_at_first-append s (c ∷ cs) after h =
    let rest = split_at_first-append s cs after (ground arith) in
    let other : (c == s) ≡ false = ground arith in rw (rest, other) refl

one_line :
    (resource member : Text)
    → all_of is_dot_unit resource ≡ true
    → all_of is_dot_unit member ≡ true
    → all_of is_dot_unit (resource ++ b'.' ∷ member) ≡ true
unfolding all_of is_dot_unit
one_line resource member h k = all_of-append is_dot_unit resource (b'.' ∷ member) h k

-- A leaf name on one line is decoded from its spelling: a constructor, or a method or static function
-- with its resource and member, if the resource has no bracket and, for these two, no point; any
-- other name if it does not begin with a bracket.
pub parse_leaf_name-spell : (leaf : LeafName) → IsLeaf leaf → parse_leaf_name (spell leaf) ≡ ok leaf
unfolding spell IsLeaf parse_leaf_name parse_mangled mangled after_tag is_tag_unit take_while
    drop_while is_empty parse_tagged parse_member text_equal
parse_leaf_name-spell (plain []) h = refl
parse_leaf_name-spell (plain (c ∷ cs)) h = rw h refl
parse_leaf_name-spell (constructor_of resource) (bracket, line) = rw (line, bracket) refl
parse_leaf_name-spell (method resource member) ((bracket, line), point, line') =
    rw
      (
        one_line resource member line line',
        split_at_first-append b'.' resource member point,
        bracket,
      )
      refl
parse_leaf_name-spell (static resource member) ((bracket, line), point, line') =
    rw
      (
        one_line resource member line line',
        split_at_first-append b'.' resource member point,
        bracket,
      )
      refl
