-- ===== src/Embedder/Resolver/Tests.antt =====
-- Two versions of one interface, and an entry without a version.
use polyengine.Base.{ℕ, ◌≡◌, refl, ◌⊎◌, none, some, List, [], ◌∷◌, ok, err, error}
use polyengine.Embedder.Text.{
  Text, units, lookup, put, text_equal, text_lt, decimal_from, decimal, split_on, join_first,
  around, split_at_last, number_of, number_from, take_while, drop_while, is_digit, is_numeric,
  is_empty, all_of,
}
use polyengine.Embedder.Version.{
  read_number, expect, read_part, read_end, is_identifier_unit, identifiers, parse_semver, parsed,
  parse_interface_id, track_key_of, track_key, is_minor_track, spelling, as_track_key_spelling,
  difference, compare_identifier, or_else, compare_identifiers, compare_prerelease, compare_semver,
}
use polyengine.Embedder.Resolver.{
  ImportResolver, is_positive, has_value, empty_resolver, hold, contest, claim_over, claim,
  claim_version, register_version, register_parsed, register_spelled, register, add_entry,
  new_resolver, base_of, any_base, unserved, serve, claim_at, resolve_unversioned, resolve_parsed,
  resolve_inexact, resolve,
}
use polyengine.Embedder.Resolver.Resolution.{Wins, NobodyClaims, resolve-Wins}

resolver_code : ℕ
unfolding lookup put text_equal text_lt decimal_from decimal split_on join_first around
    split_at_last number_of number_from take_while drop_while is_digit is_numeric is_empty all_of
    read_number expect read_part read_end is_identifier_unit identifiers parse_semver parsed
    parse_interface_id track_key_of track_key is_minor_track spelling as_track_key_spelling
    difference compare_identifier or_else compare_identifiers compare_prerelease compare_semver
    is_positive has_value empty_resolver hold contest claim_over claim claim_version
    register_version register_parsed register_spelled register add_entry new_resolver base_of
    any_base unserved serve claim_at resolve_unversioned resolve_parsed resolve_inexact resolve
resolver_code = 0

abbrev clocks : List (Text × ℕ)
clocks = (units "w:c@0.2.1", 10) ∷ (units "w:c@0.2.6", 20) ∷ (units "log", 30) ∷ []

abbrev made : ImportResolver ℕ
made = record {
  exact = clocks;
  tracks =
      (
        units "w:c@0.2",
        record {
          key = units "w:c@0.2.6";
          version =
              some (record { major = 0; minor = 2; patch = 6; prerelease = []; build = none });
        },
      )
      ∷ [];
  unversioned = [];
}

new_resolver-clocks : new_resolver clocks empty_resolver ≡ ok made
unfolding resolver_code
new_resolver-clocks = refl

resolve-newest : resolve made (units "w:c@0.2.3") ≡ ok (some (units "w:c@0.2.6", some 20))
unfolding resolver_code
resolve-newest = refl

resolve-prerelease : resolve made (units "w:c@0.2.0-rc") ≡ ok none
unfolding resolver_code
resolve-prerelease = refl

resolve-no_version :
    resolve made (units "w:c")
    ≡ err (error "import is unversioned but its registrations are versioned")
unfolding resolver_code
resolve-no_version = refl

ambiguous :
    new_resolver {V = ℕ} ((units "w:c@0.2", 1) ∷ (units "w:c@0.2.6", 2) ∷ []) empty_resolver
    ≡ err (error "import registration is ambiguous")
unfolding resolver_code
ambiguous = refl

resolve-Wins_example :
    ((key : Text) × Wins (units "w:c@0.2") clocks key
      × (resolve made (units "w:c@0.2.3") ≡ ok (some (key, lookup key clocks))))
    ⊎ NobodyClaims (units "w:c@0.2") clocks
unfolding resolver_code
resolve-Wins_example =
    resolve-Wins clocks (units "w:c@0.2.3") new_resolver-clocks refl refl refl refl
