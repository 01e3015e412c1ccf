-- ===== src/Cabi/Spill.antt =====
-- runtime/src/cabi/values.ts: the parameters or results of a call, flat, or behind one pointer when they
-- need more lanes than there may be.
pub mod RoundTrip
mod Tests
use polyengine.Base.{
  ℕ, zero, suc, ◌+◌, ◌%◌, ◌==◌, not, pos, Option, none, some, List, [], ◌∷◌, ◌++◌, String, Result,
  ok, err, error, ◌>>=◌, ◌>>◌, trap_if, ltb, if◌then◌else◌,
}
use polyengine.Cabi.Despecialized.{DespecializedType, record_type, Fields, no_fields, field_then}
use polyengine.Cabi.Types.Despecialize.{index_label}
use polyengine.Cabi.Layout.{Layout, compute_layout, align_to}
use polyengine.Cabi.Flatten.{core_type, flat_count}
use polyengine.Cabi.Float.{Floats}
use polyengine.Cabi.Value.{Value, no_members, member, Elements, no_elements, element, integer, Host}
use polyengine.Cabi.Access.{HostMembers, HostCx, members_of}
use polyengine.Cabi.Bulk.{HostElements}
use polyengine.Cabi.Lists.{allocate}
use polyengine.Cabi.Store.{store, load}
use polyengine.Cabi.Lift.{Core, Next, core_next, next_natural, lift_flat}
use polyengine.Cabi.Lower.{Lowered, lower_flat}

-- `spillTupleType`, despecialized, from the index `i` on.
unfoldable pub spill_fields : ℕ → List DespecializedType → Fields
spill_fields i [] = no_fields
spill_fields i (t ∷ ts) = field_then (index_label i) t (spill_fields (i + 1) ts)

abbrev pub spill_tuple_type : List DespecializedType → DespecializedType
spill_tuple_type ts = record_type (spill_fields 0 ts)

module _ {fl : Floats} (host : Host fl) where
  unfoldable pub tuple_value : ℕ → HostElements host → HostMembers host
  tuple_value i no_elements = no_members
  tuple_value i (element v vs) = member (index_label i) v (tuple_value (i + 1) vs)

  -- `Object.values(tuple)`
  unfoldable pub values_of : HostMembers host → HostElements host
  values_of no_members = no_elements
  values_of (member l v ms) = element v (values_of ms)

  abbrev pub LiftedValues : Type 0 → Type 0
  LiftedValues I = Result ((HostElements host × I) × HostCx host)

  unfoldable pub lift_each :
      {I : Type 0} → Next fl I → List DespecializedType → HostCx host → I → LiftedValues I
  lift_each next [] cx i = ok ((no_elements, i), cx)
  lift_each next (t ∷ ts) cx i = do
    ((v, j), cx') ← lift_flat host next t cx i
    ((vs, k), cx'') ← lift_each next ts cx' j
    ok ((element v vs, k), cx'')

  unfoldable pub lift_spilled :
      {I : Type 0} → Next fl I → List DespecializedType → HostCx host → I → LiftedValues I
  lift_spilled next ts cx i = do
    (ptr, j) ← next_natural fl next (core_type cx.memory.addr_type) i
    l ← compute_layout cx.memory.addr_type (spill_tuple_type ts)
    trap_if (not (ptr % l.align == 0)) "misaligned spill pointer"
    trap_if (ltb cx.memory.length (ptr + l.size)) "spill tuple out of bounds"
    (tuple, cx') ← load host (spill_tuple_type ts) cx ptr
    ms ← members_of host tuple
    ok ((values_of ms, j), cx')

  unfoldable pub lift_flat_values :
      {I : Type 0} → Next fl I → ℕ → List DespecializedType → HostCx host → I → LiftedValues I
  lift_flat_values next max_flat ts cx i = do
    count ← flat_count (some cx.memory.addr_type) ts
    if ltb max_flat count then lift_spilled next ts cx i else lift_each next ts cx i

  unfoldable pub lower_each :
      List DespecializedType → HostCx host → HostElements host → Lowered host
  lower_each ts cx no_elements = ok ([], cx)
  lower_each [] cx (element v vs) = err (error "no type")
  lower_each (t ∷ ts) cx (element v vs) = do
    (flat, cx') ← lower_flat host t cx v
    (rest, cx'') ← lower_each ts cx' vs
    ok (flat ++ rest, cx'')

  -- Where the tuple goes: the guest's realloc gives room and its address is the flat value, or the
  -- caller gave an out pointer and there are no flat values.
  unfoldable pub spill_pointer :
      Option (List (Core fl)) → Layout → HostCx host → Result ((ℕ × List (Core fl)) × HostCx host)
  spill_pointer none l cx = do
    (ptr, cx') ← allocate host cx l.align l.size
    ok ((ptr, integer (pos ptr) ∷ []), cx')
  spill_pointer (some out_param) l cx = do
    (ptr, rest) ← next_natural fl (core_next fl) (core_type cx.memory.addr_type) out_param
    ok ((ptr, []), cx)

  unfoldable pub lower_spilled :
      List DespecializedType
      → HostCx host
      → HostElements host
      → Option (List (Core fl))
      → Lowered host
  lower_spilled ts cx vs out_param = do
    l ← compute_layout cx.memory.addr_type (spill_tuple_type ts)
    ((ptr, flat), cx') ← spill_pointer out_param l cx
    trap_if (not (ptr == align_to ptr l.align)) "misaligned spill pointer"
    trap_if (ltb cx'.memory.length (ptr + l.size)) "spill tuple out of bounds"
    cx'' ← store host (spill_tuple_type ts) cx' (Value.object (tuple_value 0 vs)) ptr
    ok (flat, cx'')

  unfoldable pub lower_flat_values :
      ℕ
      → List DespecializedType
      → HostCx host
      → HostElements host
      → Option (List (Core fl))
      → Lowered host
  lower_flat_values max_flat ts cx vs out_param = do
    count ← flat_count (some cx.memory.addr_type) ts
    if ltb max_flat count then lower_spilled ts cx vs out_param else lower_each ts cx vs
