-- ===== src/Cabi/Types/Tests.antt =====
-- Equality and despecialization of concrete types, and the theorems at them.
use polyengine.Base.{ℕ, ◌≡◌, refl, ◌↔◌, true, false, none, if◌then◌else◌, ◌==◌}
use polyengine.Cabi.Types.{
  ValType, prim, u8, string, list, map, own, tuple, result, MaybeType, null, type, no_types,
  type_then,
}
use polyengine.Cabi.Types.Equality.{local, underlying, val_type_equal, key_of}
use polyengine.Cabi.Types.Equality.Keyed.{keyed_maybe}
use polyengine.Cabi.Types.Equality.Sound.{val_type_equal_iff}

-- Tables 1 and 2 are for resource 7, every other table is for resource 0.
abbrev resources : ℕ → ℕ
resources rt = if rt == 1 then 7 else if rt == 2 then 7 else 0

abbrev handles_of : ℕ → MaybeType
handles_of rt = type (list (tuple (type_then (own rt) (type_then (prim u8) no_types))) none)

tables_differ : val_type_equal resources local (handles_of 1) (handles_of 2) ≡ false
unfolding val_type_equal
tables_differ = refl

resources_agree : val_type_equal resources underlying (handles_of 1) (handles_of 2) ≡ true
unfolding val_type_equal
resources_agree = refl

val_type_equal_iff_example :
    (val_type_equal resources underlying (handles_of 1) (handles_of 2) ≡ true) ↔ (
      keyed_maybe (key_of resources underlying) (handles_of 1)
      ≡ keyed_maybe (key_of resources underlying) (handles_of 2))
val_type_equal_iff_example = val_type_equal_iff resources underlying (handles_of 1) (handles_of 2)

abbrev table_of_results : ValType
table_of_results = map (prim string) (result (type (prim u8)) null)
