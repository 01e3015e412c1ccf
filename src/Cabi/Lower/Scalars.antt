-- ===== src/Cabi/Lower/Scalars.antt =====
-- Values without parts, lowered to one lane and lifted.
use native.Mathlib.Nat.{mod-eq_of_lt, pow-le-pow_right}
use polyengine.Base.{
  ℕ, ◌+◌, ◌-◌, ◌%◌, ◌^◌, ◌/◌, ◌≤◌, ◌<◌, ◌≡◌, refl, sym, ap, ◌∙◌, ℤ, pos, negsuc, true, false, List,
  [], ◌∷◌, String, Result, ok, leb→le, lt→ltb, ◌&&◌, arith, length, leb, ltb,
}
use polyengine.Cabi.Types.{
  CoreType, PrimKind, bool, s8, u8, s16, u16, s32, u32, s64, u64, f32, f64, string,
}
use polyengine.Cabi.Memory.{fits_in_width}
use polyengine.Cabi.Float.{Floats, canonicalize_nan32_lem, canonicalize_nan64_lem}
use polyengine.Cabi.Lanes.{Lanes}
use polyengine.Cabi.Lanes.RoundTrip.{AreLanes}
use polyengine.Cabi.Value.{Value, integer, Host, object, flag_bit, pack_flags_into_int}
use polyengine.Cabi.Value.Flags.{flags_of, unpack_flags_from_int-pack_flags_into_int}
use polyengine.Cabi.Access.{HostValue, HostMembers, HostCx, convert_int_to_bool, members_of}
use polyengine.Cabi.Lift.{
  to_core, Next, natural_of, number_of, next_natural, next_number, signed, lift_flat_unsigned32,
  lift_flat_unsigned64, lift_flat_signed32, lift_flat_signed64, lift_flat_bool, lift_flat_float,
  lift_flat_char, lift_flat_prim, lift_flat_flags,
}
use polyengine.Cabi.Lower.{
  to_cores, unsigned, Lowered, lower_flat_bool, lower_flat_integer, lower_flat_float,
  lower_flat_char, lower_flat_prim, lower_flat_flags,
}
use polyengine.Cabi.Lower.Reads.{Reads}
use polyengine.Cabi.Store.Typing.{IntTyped, PrimTyped}
use polyengine.Cabi.Store.Scalars.{scalar_value-accepted}

module _ {fl : Floats} (host : Host fl) where
  -- Something was lowered to lanes of these types, and is lifted from whatever reads those lanes.
  abbrev pub Carried {ℓ} :
      {A : Type ℓ}
      → Lowered host
      → ((I : Type 0) → Next fl I → HostCx host → I → Result ((A × I) × HostCx host))
      → A
      → HostCx host
      → List CoreType
      → Type (ℓ ⊔ 1)
  Carried lowered lift a cx flat =
      (vs : Lanes fl flat) × AreLanes fl flat vs
      × (lowered ≡ ok (to_cores fl flat vs, cx))
      × ((I : Type 0) (next : Next fl I) (kept : HostCx host) (i i' : I)
          → kept.memory.addr_type ≡ cx.memory.addr_type
          → Reads fl next flat vs i i'
          → lift I next kept i ≡ ok ((a, i'), kept))

  natural32 :
      {lowered : Lowered host}
      (lift : (I : Type 0)
        → Next fl I
        → HostCx host
        → I
        → Result ((HostValue host × I) × HostCx host))
      (v : HostValue host) (cx : HostCx host) (n : ℕ)
      → n < 2 ^ 32
      → lowered ≡ ok (integer (pos n) ∷ [], cx)
      → ((I : Type 0) (next : Next fl I) (kept : HostCx host) (i j : I)
          → next_natural fl next CoreType.i32 i ≡ ok (n, j)
          → lift I next kept i ≡ ok ((v, j), kept))
      → Carried lowered lift v cx (CoreType.i32 ∷ [])
  unfolding to_cores to_core next_natural natural_of
  natural32 lift v cx n small lowers lifts = (
    (n, tt),
    (small, tt),
    lowers,
    λ I next kept i i' a (j, e, r). lifts I next kept i i' (rw e (ap (λ k. ok (n, k)) r)),
  )

  natural64 :
      {lowered : Lowered host}
      (lift : (I : Type 0)
        → Next fl I
        → HostCx host
        → I
        → Result ((HostValue host × I) × HostCx host))
      (v : HostValue host) (cx : HostCx host) (n : ℕ)
      → n < 2 ^ 64
      → lowered ≡ ok (integer (pos n) ∷ [], cx)
      → ((I : Type 0) (next : Next fl I) (kept : HostCx host) (i j : I)
          → next_natural fl next CoreType.i64 i ≡ ok (n, j)
          → lift I next kept i ≡ ok ((v, j), kept))
      → Carried lowered lift v cx (CoreType.i64 ∷ [])
  unfolding to_cores to_core next_natural natural_of
  natural64 lift v cx n small lowers lifts = (
    (n, tt),
    (small, tt),
    lowers,
    λ I next kept i i' a (j, e, r). lifts I next kept i i' (rw e (ap (λ k. ok (n, k)) r)),
  )

-- An integer of a width, unsigned: the number of its lane.
unsigned_number :
    (z : ℤ) (nbytes : ℕ)
    → 0 < 256 ^ nbytes
    → fits_in_width z nbytes false ≡ true
    → (n : ℕ) × (z ≡ pos n) × (n < 256 ^ nbytes)
unfolding fits_in_width
unsigned_number (pos n) nbytes positive h =
    let le = leb→le n (256 ^ nbytes - 1) h in (n, refl, omega arith)
unsigned_number (negsuc n) nbytes positive h = cc

-- A signed integer of `width` bits: the number of its lane, of `lane` bits, and back.
abbrev SignedBack : ℕ → ℕ → ℤ → Type 0
SignedBack width lane z =
    (n : ℕ) × (unsigned lane z ≡ pos n) × (n < 2 ^ lane) × (signed width (n % 2 ^ width) ≡ z)

signed8-back : (z : ℤ) → fits_in_width z 1 true ≡ true → SignedBack 8 32 z
unfolding fits_in_width unsigned signed
signed8-back (pos n) h =
    let le = leb→le n (256 ^ 1 / 2 - 1) h in (n, refl, omega arith, ground arith)
signed8-back (negsuc n) h =
    let le = leb→le (n + 1) (256 ^ 1 / 2) h in
    (2 ^ 32 - 1 - n, ground arith, omega arith, ground arith)

signed16-back : (z : ℤ) → fits_in_width z 2 true ≡ true → SignedBack 16 32 z
unfolding fits_in_width unsigned signed
signed16-back (pos n) h =
    let le = leb→le n (256 ^ 2 / 2 - 1) h in (n, refl, omega arith, ground arith)
signed16-back (negsuc n) h =
    let le = leb→le (n + 1) (256 ^ 2 / 2) h in
    (2 ^ 32 - 1 - n, ground arith, omega arith, ground arith)

signed32-back : (z : ℤ) → fits_in_width z 4 true ≡ true → SignedBack 32 32 z
unfolding fits_in_width unsigned signed
signed32-back (pos n) h =
    let le = leb→le n (256 ^ 4 / 2 - 1) h in (n, refl, omega arith, ground arith)
signed32-back (negsuc n) h =
    let le = leb→le (n + 1) (256 ^ 4 / 2) h in
    (2 ^ 32 - 1 - n, ground arith, omega arith, ground arith)

signed64-back : (z : ℤ) → fits_in_width z 8 true ≡ true → SignedBack 64 64 z
unfolding fits_in_width unsigned signed
signed64-back (pos n) h =
    let le = leb→le n (256 ^ 8 / 2 - 1) h in (n, refl, omega arith, ground arith)
signed64-back (negsuc n) h =
    let le = leb→le (n + 1) (256 ^ 8 / 2) h in
    (2 ^ 64 - 1 - n, ground arith, omega arith, ground arith)

abbrev pub prim_lane : PrimKind → CoreType
prim_lane u64 = CoreType.i64
prim_lane s64 = CoreType.i64
prim_lane f32 = CoreType.f32
prim_lane f64 = CoreType.f64
prim_lane _ = CoreType.i32

module _ {fl : Floats} (host : Host fl) where
  abbrev pub PrimCarried : PrimKind → HostCx host → HostValue host → Type 1
  PrimCarried p cx v =
      Carried host (lower_flat_prim host p cx v)
        (λ I next kept i. lift_flat_prim host next p kept i) v cx (prim_lane p ∷ [])

  bool-Carried :
      (cx : HostCx host) (v : HostValue host) → PrimTyped host bool v → PrimCarried bool cx v
  unfolding PrimTyped lower_flat_prim lower_flat_bool lift_flat_prim lift_flat_bool flag_bit
      convert_int_to_bool
  bool-Carried cx v (true, e) =
      natural32 host _ v cx 1 (omega arith) (rw e refl) (λ I next kept i j r. rw (r, e) refl)
  bool-Carried cx v (false, e) =
      natural32 host _ v cx 0 (omega arith) (rw e refl) (λ I next kept i j r. rw (r, e) refl)

  unsigned32-Carried :
      (cx : HostCx host) (v : HostValue host) (nbytes width : ℕ)
      → 0 < 256 ^ nbytes
      → 256 ^ nbytes ≡ 2 ^ width
      → 2 ^ width ≤ 2 ^ 32
      → IntTyped host nbytes false v
      → Carried host
          (lower_flat_integer host cx v (λ z. z))
          (λ I next kept i. lift_flat_unsigned32 host next kept i width)
          v
          cx
          (CoreType.i32 ∷ [])
  unfolding IntTyped lower_flat_integer lift_flat_unsigned32
  unsigned32-Carried cx v nbytes width positive same le (z, e, fits) =
      let (n, ez, small) = unsigned_number z nbytes positive fits in
      let whole : n % 2 ^ width ≡ n = mod-eq_of_lt (omega (arith, small, same)) in
      natural32 host _ v cx n (omega (arith, small, same, le)) (rw (e, ez) refl)
        (λ I next kept i j r.
          rw (r, lt→ltb n (2 ^ 32) (omega (arith, small, same, le)), whole, e, ez) refl)

  unsigned64-Carried :
      (cx : HostCx host) (v : HostValue host)
      → IntTyped host 8 false v
      → Carried host
          (lower_flat_integer host cx v (λ z. z))
          (λ I next kept i. lift_flat_unsigned64 host next kept i)
          v
          cx
          (CoreType.i64 ∷ [])
  unfolding IntTyped lower_flat_integer lift_flat_unsigned64
  unsigned64-Carried cx v (z, e, fits) =
      let (n, ez, small) = unsigned_number z 8 (omega arith) fits in
      natural64 host _ v cx n (omega (arith, small)) (rw (e, ez) refl)
        (λ I next kept i j r. rw (r, lt→ltb n (2 ^ 64) (omega (arith, small)), e, ez) refl)

  signed32-Carried :
      (cx : HostCx host) (v : HostValue host) (z : ℤ) (width : ℕ)
      → v ≡ Value.int z
      → SignedBack width 32 z
      → Carried host
          (lower_flat_integer host cx v (unsigned 32))
          (λ I next kept i. lift_flat_signed32 host next kept i width)
          v
          cx
          (CoreType.i32 ∷ [])
  unfolding lower_flat_integer lift_flat_signed32
  signed32-Carried cx v z width e (n, up, small, back) =
      natural32 host _ v cx n small (rw (e, up) refl)
        (λ I next kept i j r. rw (r, lt→ltb n (2 ^ 32) small, back, e) refl)

  signed64-Carried :
      (cx : HostCx host) (v : HostValue host) (z : ℤ)
      → v ≡ Value.int z
      → SignedBack 64 64 z
      → Carried host
          (lower_flat_integer host cx v (unsigned 64))
          (λ I next kept i. lift_flat_signed64 host next kept i)
          v
          cx
          (CoreType.i64 ∷ [])
  unfolding lower_flat_integer lift_flat_signed64
  signed64-Carried cx v z e (n, up, small, back) =
      let whole : signed 64 n ≡ z =
        ap (signed 64) (sym (mod-eq_of_lt {n = n} {m = 2 ^ 64} small)) ∙ back in
      natural64 host _ v cx n small (rw (e, up) refl)
        (λ I next kept i j r. rw (r, lt→ltb n (2 ^ 64) small, whole, e) refl)

  f32-Carried :
      (cx : HostCx host) (v : HostValue host) → PrimTyped host f32 v → PrimCarried f32 cx v
  unfolding PrimTyped lower_flat_prim lower_flat_float lift_flat_prim lift_flat_float to_cores
      to_core next_number number_of
  f32-Carried cx v (f, e, single) =
      let same = canonicalize_nan32_lem fl f in
      (
        (f, tt),
        (single, tt),
        rw (e, same) refl,
        λ I next kept i i' a (j, read, r).
            rw (read, same, e) (ap (λ k. ok ((Value.float f, k), kept)) r),
      )

  f64-Carried :
      (cx : HostCx host) (v : HostValue host) → PrimTyped host f64 v → PrimCarried f64 cx v
  unfolding PrimTyped lower_flat_prim lower_flat_float lift_flat_prim lift_flat_float to_cores
      to_core next_number number_of
  f64-Carried cx v (f, e) =
      let same = canonicalize_nan64_lem fl f in
      (
        (f, tt),
        (tt, tt),
        rw (e, same) refl,
        λ I next kept i i' a (j, read, r).
            rw (read, same, e) (ap (λ k. ok ((Value.float f, k), kept)) r),
      )

  char-Carried :
      (cx : HostCx host) (v : HostValue host)
      → PrimTyped host PrimKind.char v
      → PrimCarried PrimKind.char cx v
  unfolding PrimTyped lower_flat_prim lower_flat_char lift_flat_prim lift_flat_char
  char-Carried cx v (c, e, h) =
      let (to, from, small) = scalar_value-accepted host c h in
      natural32 host _ v cx c (omega (arith, small)) (rw (e, to) refl)
        (λ I next kept i j r. rw (r, from, e) refl)

  pub prim-Carried :
      (p : PrimKind) (cx : HostCx host) (v : HostValue host)
      → PrimTyped host p v
      → PrimCarried p cx v
  unfolding PrimTyped IntTyped lower_flat_prim lift_flat_prim
  prim-Carried bool cx v h = bool-Carried cx v h
  prim-Carried u8 cx v h = unsigned32-Carried cx v 1 8 (omega arith) refl (omega arith) h
  prim-Carried u16 cx v h = unsigned32-Carried cx v 2 16 (omega arith) refl (omega arith) h
  prim-Carried u32 cx v h = unsigned32-Carried cx v 4 32 (omega arith) refl (omega arith) h
  prim-Carried u64 cx v h = unsigned64-Carried cx v h
  prim-Carried s8 cx v (z, e, f) = signed32-Carried cx v z 8 e (signed8-back z f)
  prim-Carried s16 cx v (z, e, f) = signed32-Carried cx v z 16 e (signed16-back z f)
  prim-Carried s32 cx v (z, e, f) = signed32-Carried cx v z 32 e (signed32-back z f)
  prim-Carried s64 cx v (z, e, f) = signed64-Carried cx v z e (signed64-back z f)
  prim-Carried f32 cx v h = f32-Carried cx v h
  prim-Carried f64 cx v h = f64-Carried cx v h
  prim-Carried PrimKind.char cx v h = char-Carried cx v h
  prim-Carried string cx v h = elim h [ ]

  pub flags-Carried :
      (ls : List String) (cx : HostCx host) (v : HostValue host) (ms : HostMembers host)
      → v ≡ object ms
      → flags_of host ms ls ≡ ms
      → 0 < length ls
      → length ls ≤ 32
      → Carried host
          (lower_flat_flags host cx v ls)
          (λ I next kept i. lift_flat_flags host next ls kept i)
          v
          cx
          (CoreType.i32 ∷ [])
  unfolding lower_flat_flags lift_flat_flags members_of
  flags-Carried ls cx v ms e canonical some_labels few =
      let (small, back) = unpack_flags_from_int-pack_flags_into_int host ms ls few in
      let count : (ltb 0 (length ls) && leb (length ls) 32) ≡ true = ground arith in
      natural32 host _ v cx (pack_flags_into_int host ms ls)
        (omega (arith, small, pow-le-pow_right {n = 2} (omega arith) {j = 32} few))
        (rw (count, e) refl) (λ I next kept i j r. rw (count, r, back, canonical, e) refl)
