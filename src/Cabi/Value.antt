-- ===== src/Cabi/Value.antt =====
-- runtime/src/cabi/types.ts and load.ts: the values that cross memory, and what load.ts and store.ts
-- call of other modules. A number or a bigint is an integer where the type is integral and a
-- float where it is a float; records and flags are objects; lists are arrays, and a `Uint8Array` is an array of bytes; a string of one code point is that
-- code point. A value of another shape than its type, which JavaScript would coerce, is
-- refused here.
pub mod Flags
use Prim.Native.Nat.{bit_or}
use text.Mathlib.Text.{◌==◌ as str_eq}
use polyengine.Base.{
  ℕ, zero, suc, ◌+◌, ◌*◌, ◌/◌, ◌%◌, ◌^◌, ℤ, pos, negsuc, Bool, true, false, not, ◌&&◌, ◌||◌, Option,
  List, [], ◌∷◌, String, Result, ok, err, error, ◌>>=◌, ◌>>◌, assert, trap_if, ltb, leb, ◌==◌,
  if◌then◌else◌,
}
use polyengine.Cabi.Memory.{Memory}
use polyengine.Cabi.Float.{Floats}
use polyengine.Cabi.Despecialized.{DespecializedType}

mutual
  pub data Value (N X : Type 0) : Type 0 where
    undefined : Value N X
    null : Value N X
    boolean : Bool → Value N X
    int : ℤ → Value N X
    float : N → Value N X
    char : ℕ → Value N X
    object : Members N X → Value N X
    case_of : String → Value N X → Value N X
    array : Elements N X → Value N X
    other : X → Value N X

  pub data Members (N X : Type 0) : Type 0 where
    no_members : Members N X
    member : String → Value N X → Members N X → Members N X

  pub data Elements (N X : Type 0) : Type 0 where
    no_elements : Elements N X
    element : Value N X → Elements N X → Elements N X

-- The value of a flat lane: a number or a bigint of an integral lane, or a float.
pub data CoreValue (N : Type 0) : Type 0 where
  integer : ℤ → CoreValue N
  number : N → CoreValue N

-- The options and the instance that an operation gets: the memory, and the rest of the state.
pub record Cx (S : Type 0) : Type 0 where
  pub memory : Memory
  pub state : S

-- What serves strings, handles, streams, futures and error contexts, with the values of these types,
-- and JavaScript's truth value of a number and of such a value. `realloc` is the guest's, if it has
-- one; `may_leave` is the flag of the instance, if there is one, in the state; `checkpoint` throws
-- when the call was cancelled meanwhile. The platform may be little-endian.
pub record Host (fl : Floats) : Type 1 where
  pub Other : Type 0
  pub State : Type 0
  pub truthy_number : fl.Number → Bool
  pub truthy_other : Other → Bool
  pub little_endian : Bool
  pub realloc : Option (Cx State → ℕ → ℕ → ℕ → ℕ → Result (ℕ × Cx State))
  pub may_leave : State → Option Bool
  pub set_may_leave : Bool → State → State
  pub checkpoint : State → Result (Unit {0})
  pub load_other : DespecializedType → Cx State → ℕ → Result (Other × Cx State)
  pub store_other : DespecializedType → Cx State → Value fl.Number Other → ℕ → Result (Cx State)
  pub lift_other :
      DespecializedType → Cx State → List (CoreValue fl.Number) → Result (Other × Cx State)
  pub lower_other :
      DespecializedType
      → Cx State
      → Value fl.Number Other
      → Result (List (CoreValue fl.Number) × Cx State)

module _ {N X : Type 0} where
  -- `v[label]`
  unfoldable pub member_of : String → Members N X → Value N X
  member_of l no_members = undefined
  member_of l (member m v ms) = if str_eq m l then v else member_of l ms

  -- `v.length`
  unfoldable pub element_count : Elements N X → ℕ
  element_count no_elements = 0
  element_count (element v vs) = suc (element_count vs)

unfoldable pub convert_i32_to_char : ℕ → Result ℕ
convert_i32_to_char i = do
  trap_if (leb 0x110000 i) "char out of range"
  trap_if (leb 0xd800 i && leb i 0xdfff) "char is a surrogate"
  ok i

unfoldable pub char_to_i32 : ℕ → Result ℕ
char_to_i32 c = do
  assert (leb c 0xd7ff || (leb 0xe000 c && leb c 0x10ffff)) "char must be a Unicode scalar value"
  ok c

unfoldable pub flag_bit : Bool → ℕ
flag_bit true = 1
flag_bit false = 0

module _ {fl : Floats} (host : Host fl) where
  unfoldable pub truthy : Value fl.Number host.Other → Bool
  truthy undefined = false
  truthy null = false
  truthy (boolean b) = b
  truthy (int (pos zero)) = false
  truthy (int n) = true
  truthy (float f) = host.truthy_number f
  truthy (char c) = true
  truthy (object ms) = true
  truthy (case_of l v) = true
  truthy (array vs) = true
  truthy (other x) = host.truthy_other x

  -- The loop of `packFlagsIntoInt`, from `i` and `shift` on.
  unfoldable pub pack_flags_from : Members fl.Number host.Other → ℕ → ℕ → List String → ℕ
  pack_flags_from ms i shift [] = i
  pack_flags_from ms i shift (l ∷ ls) =
      pack_flags_from ms
        (bit_or i (flag_bit (truthy (member_of l ms)) * 2 ^ shift % 2 ^ 32) % 2 ^ 32) (shift + 1) ls

  unfoldable pub pack_flags_into_int : Members fl.Number host.Other → List String → ℕ
  pack_flags_into_int ms ls = pack_flags_from ms 0 0 ls

  unfoldable pub unpack_flags_from_int : ℕ → List String → Members fl.Number host.Other
  unpack_flags_from_int v [] = no_members
  unpack_flags_from_int v (l ∷ ls) =
      member l (boolean (v % 2 == 1)) (unpack_flags_from_int (v / 2) ls)
