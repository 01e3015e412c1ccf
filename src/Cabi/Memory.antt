-- ===== src/Cabi/Memory.antt =====
-- runtime/src/cabi/memory.ts: integers in linear memory, little-endian. A memory is a function from
-- addresses to bytes with a length. The source has numbers up to 32 bits and bigints for 64; both
-- are integers here. Addresses are exact.
pub mod Bytes
pub mod Pointers
pub mod RoundTrip
mod Tests
use polyengine.Base.{
  ℕ, zero, suc, ◌+◌, ◌-◌, ◌*◌, ◌/◌, ◌%◌, ◌^◌, ℤ, pos, negsuc, Bool, true, false, Result, ok, ◌>>◌,
  assert, trap_if, ltb, leb, ◌==◌, if◌then◌else◌, String,
}
use polyengine.Cabi.Types.{PtrType}
use polyengine.Cabi.Layout.{ptr_size}

pub record Memory : Type 0 where
  pub byte : ℕ → ℕ
  pub length : ℕ
  pub addr_type : PtrType
  pub byte_offset : ℕ

-- `DataView.getUint8` and its kin, for `n` bytes.
unfoldable pub get_uint : (ℕ → ℕ) → ℕ → ℕ → ℕ
get_uint byte ptr zero = 0
get_uint byte ptr (suc n) = byte ptr + 256 * get_uint byte (ptr + 1) n

abbrev pub set_byte : (ℕ → ℕ) → ℕ → ℕ → ℕ → ℕ
set_byte byte ptr b i = if ptr == i then b else byte i

-- `DataView.setUint8` and its kin, which wrap.
unfoldable pub set_uint : (ℕ → ℕ) → ℕ → ℕ → ℕ → ℕ → ℕ
set_uint byte ptr zero v = byte
set_uint byte ptr (suc n) v = set_uint (set_byte byte ptr (v % 256)) (ptr + 1) n (v / 256)

-- The word of `n` bytes for an integer, and the signed integer that a word stands for.
unfoldable pub to_word : ℕ → ℤ → ℕ
to_word n (pos v) = v % 256 ^ n
to_word n (negsuc v) = 256 ^ n - 1 - v % 256 ^ n

unfoldable pub of_word : ℕ → ℕ → ℤ
of_word n w = if ltb w (256 ^ n / 2) then pos w else negsuc (256 ^ n - 1 - w)

unfoldable pub load_int_u : Memory → ℕ → ℕ → Result ℕ
load_int_u mem ptr nbytes =
    assert (leb (ptr + nbytes) mem.length) "load out of bounds" >> ok (get_uint mem.byte ptr nbytes)

unfoldable pub load_int_s : Memory → ℕ → ℕ → Result ℤ
load_int_s mem ptr nbytes =
    assert (leb (ptr + nbytes) mem.length) "load out of bounds"
    >> ok (of_word nbytes (get_uint mem.byte ptr nbytes))

pub load_ptr : Memory → ℕ → Result ℕ
load_ptr mem ptr = load_int_u mem ptr (ptr_size mem.addr_type)

-- `numberFitsInWidth` and `bigintFitsIn64`.
unfoldable pub fits_in_width : ℤ → ℕ → Bool → Bool
fits_in_width (pos v) nbytes true = leb v (256 ^ nbytes / 2 - 1)
fits_in_width (negsuc v) nbytes true = leb (v + 1) (256 ^ nbytes / 2)
fits_in_width (pos v) nbytes false = leb v (256 ^ nbytes - 1)
fits_in_width (negsuc v) nbytes false = false

unfoldable pub store_int : Memory → ℤ → ℕ → ℕ → Bool → Result Memory
store_int mem v ptr nbytes signed = do
  assert (leb (ptr + nbytes) mem.length) "store out of bounds"
  assert (fits_in_width v nbytes signed) "int store: value out of range"
  ok (record mem { byte = set_uint mem.byte ptr nbytes (to_word nbytes v) })

pub store_ptr : Memory → ℕ → ℕ → Result Memory
store_ptr mem v ptr = store_int mem (pos v) ptr (ptr_size mem.addr_type) false

unfoldable pub trap_if_range_exceeds_memory : Memory → ℕ → ℕ → String → Result (Unit {0})
trap_if_range_exceeds_memory mem ptr byte_length what =
    trap_if (ltb mem.length (ptr + byte_length)) what
