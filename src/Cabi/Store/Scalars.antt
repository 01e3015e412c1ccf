-- ===== src/Cabi/Store/Scalars.antt =====
-- A value of a primitive type, or flags, stored in its own bytes and loaded.
use native.Mathlib.Nat.{pow-le-pow_right}
use polyengine.Base.{
  ℕ, ◌+◌, ◌-◌, ◌^◌, ◌≤◌, ◌<◌, ◌≡◌, refl, ap, ◌∙◌, ◌⊎◌, inl, inr, ℤ, pos, Bool, true, false, List,
  String, Result, ok, Returns, le→leb, arith, length,
}
use polyengine.Cabi.Types.{PrimKind, bool, s8, u8, s16, u16, s32, u32, s64, u64, f32, f64, string}
use polyengine.Cabi.Layout.{elem_size_flags}
use polyengine.Cabi.Memory.{Memory, load_int_u, load_int_s, of_word, fits_in_width}
use polyengine.Cabi.Memory.RoundTrip.{SameOutside, SameInside, reads_as, load_int-store_int}
use polyengine.Cabi.Float.{Floats, decode-encode32, decode-encode64}
use polyengine.Cabi.Value.{
  Value, object, Host, truthy, flag_bit, convert_i32_to_char, char_to_i32, pack_flags_into_int,
}
use polyengine.Cabi.Value.Flags.{flags_of, unpack_flags_from_int-pack_flags_into_int}
use polyengine.Cabi.Access.{
  HostValue, HostMembers, HostCx, store_word, store_number, store_float, store_char, store_prim,
  store_flags, convert_int_to_bool, load_unsigned, load_signed, load_float, load_bool, load_char,
  load_prim, load_flags,
}
use polyengine.Cabi.Store.Typing.{IsScalarValue, IntTyped, PrimTyped}

elem_size_flags_cases :
    (n : ℕ) {k : ℕ}
    → elem_size_flags n ≡ ok k
    → ((k ≡ 1) × (n ≤ 8)) ⊎ (((k ≡ 2) × (n ≤ 16)) ⊎ ((k ≡ 4) × (n ≤ 32)))
unfolding elem_size_flags
elem_size_flags_cases n e = ground arith

module _ {fl : Floats} (host : Host fl) where
  -- After a store the `n` bytes at `ptr` hold `a` for a reader, wherever they are kept, and nothing
  -- else is changed.
  unfoldable pub Holds {ℓ} :
      {A : Type ℓ} (reader : HostCx host → Result (A × HostCx host))
      → A
      → HostCx host
      → ℕ
      → ℕ
      → HostCx host
      → Type ℓ
  Holds reader a cx ptr n cx' =
      (cx'.state ≡ cx.state)
      × SameOutside cx.memory cx'.memory ptr n
      × ((kept : HostCx host)
          → SameInside cx'.memory kept.memory ptr n
          → reader kept ≡ ok (a, kept))

  unfoldable pub HasWord : ℤ → Bool → HostCx host → ℕ → ℕ → HostCx host → Type 0
  HasWord v signed cx ptr n cx' =
      (cx'.state ≡ cx.state)
      × SameOutside cx.memory cx'.memory ptr n
      × ((m : Memory)
          → SameInside cx'.memory m ptr n
          → (w : ℕ) × (load_int_u m ptr n ≡ ok w)
            × (load_int_s m ptr n ≡ ok (of_word n w))
            × (reads_as signed n w ≡ v))

  pub store_word-HasWord :
      (cx : HostCx host) (v : ℤ) (ptr n : ℕ) (signed : Bool)
      → 0 < n
      → ptr + n ≤ cx.memory.length
      → fits_in_width v n signed ≡ true
      → Returns (HasWord v signed cx ptr n) (store_word host cx v ptr n signed)
  unfolding store_word HasWord
  store_word-HasWord cx v ptr n signed h bound f =
      let (m, e, (same, back)) = load_int-store_int cx.memory v ptr n signed h bound f in
      (record cx { memory = m }, rw e refl, (refl, same, back))

  store_unsigned :
      (cx : HostCx host) (v : ℤ) (ptr n : ℕ)
      → 0 < n
      → ptr + n ≤ cx.memory.length
      → fits_in_width v n false ≡ true
      → Returns
          (Holds (λ kept. load_unsigned host kept ptr n) (Value.int v) cx ptr n)
          (store_number host cx (Value.int v) ptr n false)
  unfolding store_number load_unsigned reads_as HasWord Holds
  store_unsigned cx v ptr n h bound f =
      let (cx', e, (s, same, back)) = store_word-HasWord cx v ptr n false h bound f in
      (cx', e, (s, same, λ kept k. let (w, u, i, r) = back kept.memory k in rw (u, r) refl))

  store_signed :
      (cx : HostCx host) (v : ℤ) (ptr n : ℕ)
      → 0 < n
      → ptr + n ≤ cx.memory.length
      → fits_in_width v n true ≡ true
      → Returns
          (Holds (λ kept. load_signed host kept ptr n) (Value.int v) cx ptr n)
          (store_number host cx (Value.int v) ptr n true)
  unfolding store_number load_signed reads_as HasWord Holds
  store_signed cx v ptr n h bound f =
      let (cx', e, (s, same, back)) = store_word-HasWord cx v ptr n true h bound f in
      (
        cx',
        e,
        (
          s,
          same,
          λ kept k.
              let (w, u, i, r) = back kept.memory k in rw i (ap (λ z. ok (Value.int z, kept)) r),
        ),
      )

  -- A word that fits is read back by a reader that reads it and goes on.
  pub store_natural {ℓ} :
      {A : Type ℓ} (reader : HostCx host → Result (A × HostCx host)) (a : A) (cx : HostCx host)
      (v ptr n : ℕ)
      → 0 < n
      → ptr + n ≤ cx.memory.length
      → v < 256 ^ n
      → ((kept : HostCx host) → load_int_u kept.memory ptr n ≡ ok v → reader kept ≡ ok (a, kept))
      → Returns (Holds reader a cx ptr n) (store_word host cx (pos v) ptr n false)
  unfolding reads_as fits_in_width HasWord Holds
  store_natural reader a cx v ptr n h bound f read =
      let fits = le→leb v (256 ^ n - 1) (omega arith) in
      let (cx', e, (s, same, back)) = store_word-HasWord cx (pos v) ptr n false h bound fits in
      (
        cx',
        e,
        (
          s,
          same,
          λ kept k.
              let (w, u, i, r) = back kept.memory k in read kept (u ∙ ap ok (pos_injective r)),
        ),
      )
    where
      pos_injective : {x y : ℕ} → pos x ≡ pos y → x ≡ y
      pos_injective e = cc

  store_bool-Holds :
      (cx : HostCx host) (b : Bool) (ptr : ℕ)
      → ptr + 1 ≤ cx.memory.length
      → Returns
          (Holds (λ kept. load_bool host kept ptr) (Value.boolean b) cx ptr 1)
          (store_word host cx (pos (flag_bit b)) ptr 1 false)
  unfolding load_bool convert_int_to_bool flag_bit
  store_bool-Holds cx true ptr bound =
      store_natural _ _ cx 1 ptr 1 (omega arith) bound (omega arith) (λ kept e. rw e refl)
  store_bool-Holds cx false ptr bound =
      store_natural _ _ cx 0 ptr 1 (omega arith) bound (omega arith) (λ kept e. rw e refl)

  store_float-Holds :
      (cx : HostCx host) (f : fl.Number) (ptr n : ℕ) (encode : fl.Number → ℕ)
      (decode : ℕ → fl.Number)
      → 0 < n
      → ptr + n ≤ cx.memory.length
      → decode (encode f) ≡ f
      → encode f < 256 ^ n
      → Returns
          (Holds (λ kept. load_float host kept ptr n decode) (Value.float f) cx ptr n)
          (store_float host cx (Value.float f) ptr n encode)
  unfolding store_float load_float
  store_float-Holds cx f ptr n encode decode h bound back small =
      store_natural _ _ cx (encode f) ptr n h bound small (λ kept e. rw (e, back) refl)

  pub scalar_value-accepted :
      (c : ℕ)
      → IsScalarValue c
      → (char_to_i32 c ≡ ok c) × (convert_i32_to_char c ≡ ok c) × (c < 256 ^ 4)
  unfolding IsScalarValue char_to_i32 convert_i32_to_char
  scalar_value-accepted c h = ground arith

  store_char-Holds :
      (cx : HostCx host) (c ptr : ℕ)
      → ptr + 4 ≤ cx.memory.length
      → IsScalarValue c
      → Returns
          (Holds (λ kept. load_char host kept ptr) (Value.char c) cx ptr 4)
          (store_char host cx (Value.char c) ptr)
  unfolding store_char load_char
  store_char-Holds cx c ptr bound h =
      let (to, from, small) = scalar_value-accepted c h in
      rw to (store_natural _ _ cx c ptr 4 (omega arith) bound small (λ kept e. rw (e, from) refl))

  pub flags_width :
      (n : ℕ) {k : ℕ} → elem_size_flags n ≡ ok k → (0 < k) × (n ≤ 32) × (2 ^ n ≤ 256 ^ k)
  flags_width n {k} e = elim (elem_size_flags_cases n e) [
    | inl (w, le) ↦
        rw w (omega arith, omega arith, pow-le-pow_right {n = 2} (omega arith) {j = 8} le)
    | inr (inl (w, le)) ↦
        rw w (omega arith, omega arith, pow-le-pow_right {n = 2} (omega arith) {j = 16} le)
    | inr (inr (w, le)) ↦
        rw w (omega arith, omega arith, pow-le-pow_right {n = 2} (omega arith) {j = 32} le)
  ]

  pub store_flags-Holds :
      (cx : HostCx host) (ms : HostMembers host) (ls : List String) (ptr : ℕ) {k : ℕ}
      → elem_size_flags (length ls) ≡ ok k
      → ptr + k ≤ cx.memory.length
      → flags_of host ms ls ≡ ms
      → Returns
          (Holds (λ kept. load_flags host kept ptr ls) (object ms) cx ptr k)
          (store_flags host cx (object ms) ptr ls)
  unfolding store_flags load_flags
  store_flags-Holds cx ms ls ptr {k} e bound canonical =
      let (positive, few, wide) = flags_width (length ls) e in
      let (small, back) = unpack_flags_from_int-pack_flags_into_int host ms ls few in
      rw e (
        store_natural _ _ cx (pack_flags_into_int host ms ls) ptr k positive bound (omega arith)
          (λ kept r. rw (r, back, canonical) refl))

  unfoldable pub width : PrimKind → ℕ
  width bool = 1
  width u8 = 1
  width s8 = 1
  width u16 = 2
  width s16 = 2
  width u64 = 8
  width s64 = 8
  width f64 = 8
  width _ = 4

  abbrev pub StoresPrim : PrimKind → HostCx host → HostValue host → ℕ → Type 0
  StoresPrim p cx v ptr =
      ptr + width p ≤ cx.memory.length
      → Returns (Holds (λ kept. load_prim host p kept ptr) v cx ptr (width p))
          (store_prim host p cx v ptr)

  pub store_prim-StoresPrim :
      (p : PrimKind) (cx : HostCx host) (v : HostValue host) (ptr : ℕ)
      → PrimTyped host p v
      → StoresPrim p cx v ptr
  unfolding PrimTyped IntTyped width store_prim load_prim truthy
  store_prim-StoresPrim bool cx v ptr (b, e) bound = rw e (store_bool-Holds cx b ptr bound)
  store_prim-StoresPrim u8 cx v ptr (z, e, f) bound =
      rw e (store_unsigned cx z ptr 1 (omega arith) bound f)
  store_prim-StoresPrim u16 cx v ptr (z, e, f) bound =
      rw e (store_unsigned cx z ptr 2 (omega arith) bound f)
  store_prim-StoresPrim u32 cx v ptr (z, e, f) bound =
      rw e (store_unsigned cx z ptr 4 (omega arith) bound f)
  store_prim-StoresPrim u64 cx v ptr (z, e, f) bound =
      rw e (store_unsigned cx z ptr 8 (omega arith) bound f)
  store_prim-StoresPrim s8 cx v ptr (z, e, f) bound =
      rw e (store_signed cx z ptr 1 (omega arith) bound f)
  store_prim-StoresPrim s16 cx v ptr (z, e, f) bound =
      rw e (store_signed cx z ptr 2 (omega arith) bound f)
  store_prim-StoresPrim s32 cx v ptr (z, e, f) bound =
      rw e (store_signed cx z ptr 4 (omega arith) bound f)
  store_prim-StoresPrim s64 cx v ptr (z, e, f) bound =
      rw e (store_signed cx z ptr 8 (omega arith) bound f)
  store_prim-StoresPrim f32 cx v ptr (f, e, single) bound =
      let (back, small) = decode-encode32 fl f single in
      rw e (store_float-Holds cx f ptr 4 _ _ (omega arith) bound back (omega arith))
  store_prim-StoresPrim f64 cx v ptr (f, e) bound =
      let (back, small) = decode-encode64 fl f in
      rw e (store_float-Holds cx f ptr 8 _ _ (omega arith) bound back (omega arith))
  store_prim-StoresPrim PrimKind.char cx v ptr (c, e, h) bound =
      rw e (store_char-Holds cx c ptr bound h)
  store_prim-StoresPrim string cx v ptr h bound = elim h [ ]
