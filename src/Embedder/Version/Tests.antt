-- ===== src/Embedder/Version/Tests.antt =====
-- Versions and their tracks.
use polyengine.Base.{ℕ, ◌≡◌, refl, pos, negsuc, none, some, [], ◌∷◌}
use polyengine.Embedder.Text.{
  units, text_equal, text_lt, decimal_from, decimal, split_on, join_first, around, split_at_last,
  number_of, number_from, take_while, drop_while, is_digit, is_numeric, is_empty, all_of,
}
use polyengine.Embedder.Version.{
  Semver, read_number, expect, read_part, read_end, is_identifier_unit, identifiers, parse_semver,
  parsed, parse_interface_id, track_key_of, track_key, is_minor_track, spelling,
  as_track_key_spelling, difference, compare_identifier, or_else, compare_identifiers,
  compare_prerelease, compare_semver,
}
use polyengine.Embedder.Version.Tracks.{Compatible, track_key_of-Compatible}

version_code : ℕ
unfolding text_equal text_lt decimal_from decimal split_on join_first around split_at_last number_of
    number_from take_while drop_while is_digit is_numeric is_empty all_of read_number expect
    read_part read_end is_identifier_unit identifiers parse_semver parsed parse_interface_id
    track_key_of track_key is_minor_track spelling as_track_key_spelling difference
    compare_identifier or_else compare_identifiers compare_prerelease compare_semver
version_code = 0

abbrev release : ℕ → ℕ → ℕ → Semver
release a b c = record { major = a; minor = b; patch = c; prerelease = []; build = none }

abbrev candidate : Semver
candidate = record {
  major = 1;
  minor = 2;
  patch = 3;
  prerelease = units "rc" ∷ units "2" ∷ [];
  build = some (units "abc");
}

parse_semver-candidate : parse_semver (units "1.2.3-rc.2+abc") ≡ some candidate
unfolding version_code
parse_semver-candidate = refl

parse_semver-short : parse_semver (units "1.2") ≡ none
unfolding version_code
parse_semver-short = refl

minor_track : track_key (units "wasi:clocks/wall@0.2.6") ≡ some (units "wasi:clocks/wall@0.2")
unfolding version_code
minor_track = refl

major_track : track_key (units "a:b/c@12.0.1+x") ≡ some (units "a:b/c@12")
unfolding version_code
major_track = refl

no_track : track_key (units "a:b/c@0.0.7") ≡ none
unfolding version_code
no_track = refl

compare_semver-numeric :
    compare_semver candidate (record candidate { prerelease = units "rc" ∷ units "10" ∷ [] })
    ≡ negsuc 7
unfolding version_code
compare_semver-numeric = refl

compare_semver-release : compare_semver (release 1 2 3) candidate ≡ pos 1
unfolding version_code
compare_semver-release = refl

track_key_of-Compatible_example :
    (as_track_key_spelling (units "a:b/c@0.2") ≡ some (units "a:b/c@0.2"))
    × (units "a:b/c" ≡ units "a:b/c")
    × Compatible (release 0 2 6) (release 0 2 1)
unfolding version_code
track_key_of-Compatible_example =
    track_key_of-Compatible (units "a:b/c") (units "a:b/c") (release 0 2 6) (release 0 2 1) refl
      refl
