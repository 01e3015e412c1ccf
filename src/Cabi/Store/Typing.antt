-- ===== src/Cabi/Store/Typing.antt =====
-- The values of a type that fit in its own bytes: those without strings, lists of any
-- length and handles. Such a
-- value has exactly the members that its type names, in order, and a list has the length of its type.
use polyengine.Base.{ℕ, zero, suc, ℤ, Bool, ◌≡◌, ◌≤◌, ◌⊎◌, some, true, false, String}
use polyengine.Cabi.Types.{PrimKind, bool, s8, u8, s16, u16, s32, u32, s64, u64, f32, f64, string}
use polyengine.Cabi.Despecialized.{
  DespecializedType, prim, list, record_type, variant, flags, Payload, type, Fields, no_fields,
  field_then, Cases, no_cases, case_then,
}
use polyengine.Cabi.Memory.{fits_in_width}
use polyengine.Cabi.Float.{Floats}
use polyengine.Cabi.Value.{
  Value, array, element_count, no_elements, element, boolean, int, float, object, case_of,
  no_members, member, Host, member_of,
}
use polyengine.Cabi.Value.Flags.{flags_of}
use polyengine.Cabi.Bulk.{HostElements}
use polyengine.Cabi.Access.{HostValue, HostMembers, label_count, first_index}

unfoldable pub IsScalarValue : ℕ → Type 0
IsScalarValue c = (c ≤ 0xd7ff) ⊎ ((0xe000 ≤ c) × (c ≤ 0x10ffff))

module _ {fl : Floats} (host : Host fl) where
  -- An integer that fits in a number of bytes, signed or not.
  unfoldable pub IntTyped : ℕ → Bool → HostValue host → Type 0
  IntTyped nbytes signed v = (z : ℤ) × (v ≡ int z) × (fits_in_width z nbytes signed ≡ true)

  unfoldable pub PrimTyped : PrimKind → HostValue host → Type 0
  PrimTyped bool v = (b : Bool) × (v ≡ boolean b)
  PrimTyped u8 v = IntTyped 1 false v
  PrimTyped u16 v = IntTyped 2 false v
  PrimTyped u32 v = IntTyped 4 false v
  PrimTyped u64 v = IntTyped 8 false v
  PrimTyped s8 v = IntTyped 1 true v
  PrimTyped s16 v = IntTyped 2 true v
  PrimTyped s32 v = IntTyped 4 true v
  PrimTyped s64 v = IntTyped 8 true v
  PrimTyped f32 v = (f : fl.Number) × (v ≡ float f) × fl.IsFloat32 f
  PrimTyped f64 v = (f : fl.Number) × (v ≡ float f)
  PrimTyped PrimKind.char v = (c : ℕ) × (v ≡ Value.char c) × IsScalarValue c
  PrimTyped string v = ⊥

  unfoldable pub AllElements : (HostValue host → Type 0) → HostElements host → Type 0
  AllElements P no_elements = Unit
  AllElements P (element v vs) = P v × AllElements P vs

  unfoldable mutual
    pub Typed : DespecializedType → HostValue host → Type 0
    Typed (prim p) v = PrimTyped p v
    Typed (record_type fs) v = (ms : HostMembers host) × (v ≡ object ms) × FieldsTyped fs ms ms
    Typed (variant cs) v =
        (l : String) × (w : HostValue host) × (v ≡ case_of l w)
        × (label_count l cs ≡ 1)
        × PayloadTyped cs (first_index l cs) w
    Typed (flags ls) v = (ms : HostMembers host) × (v ≡ object ms) × (flags_of host ms ls ≡ ms)
    Typed (list t (some n)) v =
        (vs : HostElements host) × (v ≡ array vs)
        × (element_count vs ≡ n)
        × AllElements (λ w. Typed t w) vs
    Typed d v = ⊥

    -- The fields hold members of `whole`, and these are the members `ms` in order.
    pub FieldsTyped : Fields → HostMembers host → HostMembers host → Type 0
    FieldsTyped no_fields whole ms = ms ≡ no_members
    FieldsTyped (field_then l t fs) whole ms =
        (rest : HostMembers host) × (ms ≡ member l (member_of l whole) rest)
        × Typed t (member_of l whole)
        × FieldsTyped fs whole rest

    pub PayloadTyped : Cases → ℕ → HostValue host → Type 0
    PayloadTyped no_cases i v = ⊥
    PayloadTyped (case_then l Payload.null cs) zero v = v ≡ Value.null
    PayloadTyped (case_then l (type t) cs) zero v = Typed t v
    PayloadTyped (case_then l p cs) (suc i) v = PayloadTyped cs i v
