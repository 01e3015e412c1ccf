-- ===== src/Cabi/Memory/Tests.antt =====
-- A signed integer in a memory of sixteen bytes.
use polyengine.Base.{
  ℕ, ◌+◌, ◌≡◌, refl, ℤ, pos, negsuc, false, Result, ok, err, trap, assertion_error,
}
use polyengine.Cabi.Types.{PtrType}
use polyengine.Cabi.Memory.{
  Memory, get_uint, set_uint, to_word, load_int_u, load_ptr, fits_in_width, store_int, store_ptr,
  trap_if_range_exceeds_memory,
}

abbrev sixteen : Memory
sixteen = record { byte = λ i. 0xaa; length = 16; addr_type = PtrType.i32; byte_offset = 0 }

abbrev written : (Memory → Result ℕ) → Result Memory → Result ℕ
written read (ok mem) = read mem
written read (err e) = err e

abbrev signed_of : Result ℤ → ℕ
signed_of (ok (pos n)) = n
signed_of (ok (negsuc n)) = 1000 + n
signed_of (err e) = 2000

little_endian : written (λ m. load_int_u m 8 1) (store_int sixteen (pos 0x1234) 8 2 false) ≡ ok 0x34
unfolding get_uint set_uint to_word load_int_u store_int fits_in_width
little_endian = refl

pointer_back : written (λ m. load_ptr m 4) (store_ptr sixteen 4096 4) ≡ ok 4096
unfolding get_uint set_uint to_word load_int_u store_int fits_in_width load_ptr store_ptr
pointer_back = refl

too_wide :
    store_int sixteen (pos 256) 8 1 false ≡ err (assertion_error "int store: value out of range")
unfolding store_int fits_in_width
too_wide = refl

past_the_end : load_int_u sixteen 15 2 ≡ err (assertion_error "load out of bounds")
unfolding load_int_u
past_the_end = refl

range_trap : trap_if_range_exceeds_memory sixteen 8 9 "out of bounds" ≡ err (trap "out of bounds")
unfolding trap_if_range_exceeds_memory
range_trap = refl
