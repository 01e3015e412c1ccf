-- ===== src/Task/Stream.antt =====
-- runtime/src/task/streams.ts: the class `SharedStreamImpl`, where a read and a write meet. Of the callbacks of an operation the model keeps which end
-- they belong to, whether `onCopy` reclaims the buffer at once, and the calls that are made of them, in
-- order; what else a callback does is not modelled, nor that it throws. The byte sessions of hosts
-- (`DirectBuffer`) are not modelled.
pub mod Transfer
pub mod Closing
pub mod Tests
use polyengine.Base.{
  ℕ, zero, suc, ◌+◌, ◌-◌, ◌*◌, ◌%◌, ◌^◌, min, Bool, true, false, not, ◌&&◌, ◌||◌, Option, none,
  some, List, [], ◌∷◌, ◌++◌, Result, ok, err, assertion_error, ◌>>=◌, ◌>>◌, assert, trap_if, ltb,
  leb, ◌==◌, if◌then◌else◌, length,
}
use polyengine.Cabi.Types.{MaybeType, PrimKind, ValType}
use polyengine.Cabi.Types.Equality.{Identity, val_type_equal}
use polyengine.Cabi.Types.Despecialize.{despecialize_all}
use polyengine.Cabi.Layout.{layout_of, align_to}
use polyengine.Cabi.Float.{Floats}
use polyengine.Cabi.Value.{Value, no_elements, element, element_count, Host}
use polyengine.Cabi.Access.{HostValue, HostCx}
use polyengine.Cabi.Bulk.{HostElements}
use polyengine.Cabi.Lists.{load_list_from_valid_range, store_list_into_valid_range, elements_of}
use polyengine.Cabi.Store.{load, store}
use polyengine.Task.Buffer.{Buffer, Contexts, remain, is_zero_length, rendezvous_copy}

pub data CopyResult : Type 0 where
  completed dropped cancelled : CopyResult

pub data Side : Type 0 where
  readable writable : Side

-- A call of `onCopy` or of `onCopyDone`, of the end that it belongs to; of `notifyIdleDrop` of an end;
-- of an observer of the drop.
pub data Notice : Type 0 where
  copied : Side → Notice
  done : Side → CopyResult → Notice
  idle_drop : Side → Notice
  observed : ℕ → Notice

-- Whether an operation's `onCopy` calls `reclaim` before it returns, or when its event is delivered.
pub data OnCopy : Type 0 where
  reclaims_now reclaims_later : OnCopy

pub record Pending : Type 0 where
  pub inst : ℕ
  pub buffer : Buffer
  pub side : Side
  pub on_copy : OnCopy

-- `observers` are the callbacks of `whenDropped`, none once they have been called.
pub record Shared : Type 0 where
  pub elem : MaybeType
  pub dropped : Bool
  pub pending : Option Pending
  pub has_readable_end : Bool
  pub has_writable_end : Bool
  pub observers : Option (List ℕ)

unfoldable pub none_or_number_type : MaybeType → Bool
none_or_number_type MaybeType.null = true
none_or_number_type (MaybeType.type (ValType.prim PrimKind.bool)) = false
none_or_number_type (MaybeType.type (ValType.prim PrimKind.char)) = false
none_or_number_type (MaybeType.type (ValType.prim PrimKind.string)) = false
none_or_number_type (MaybeType.type (ValType.prim p)) = true
none_or_number_type (MaybeType.type t) = false

-- An operation is parked.
pub park : Shared → Pending → Shared
park s p = record s { pending = some p }

pub reset_pending : Shared → Shared
reset_pending s = record s { pending = none }

-- After `onCopy` of the parked operation, whose buffer has the progress that the copy made.
unfoldable pub after_copy : OnCopy → Shared → Pending → Buffer → Shared
after_copy reclaims_now s p b = reset_pending s
after_copy reclaims_later s p b = record s { pending = some (record p { buffer = b }) }

pub notify_from : Shared → CopyResult → Option Pending → Result (Shared × List Notice)
notify_from s result none = err (assertion_error "reset_and_notify_pending with nothing pending")
notify_from s result (some p) = ok (reset_pending s, done p.side result ∷ [])

pub reset_and_notify_pending : Shared → CopyResult → Result (Shared × List Notice)
reset_and_notify_pending s result = notify_from s result s.pending

pub cancel : Shared → Result (Shared × List Notice)
cancel s = reset_and_notify_pending s cancelled

pub drop_pending : Shared → Option Pending → Result (Shared × List Notice)
drop_pending s none = ok (s, [])
drop_pending s (some p) = reset_and_notify_pending s CopyResult.dropped

-- `end?.notifyIdleDrop()`
unfoldable pub notify_end : Bool → Side → List Notice
notify_end true side = idle_drop side ∷ []
notify_end false side = []

-- The ends that are told of the drop: the other end, or both if it is not known which end drops.
unfoldable pub notify_ends : Bool → Bool → Option Side → List Notice
notify_ends has_readable has_writable (some readable) = notify_end has_writable writable
notify_ends has_readable has_writable (some writable) = notify_end has_readable readable
notify_ends has_readable has_writable none =
    notify_end has_readable readable ++ notify_end has_writable writable

unfoldable pub observe_all : List ℕ → List Notice
observe_all [] = []
observe_all (o ∷ os) = observed o ∷ observe_all os

-- `notifyDropped`
unfoldable pub notify_dropped : Option (List ℕ) → List Notice
notify_dropped none = []
notify_dropped (some os) = observe_all os

-- `drop` of the shared stream by one of its ends, or by neither.
pub drop : Shared → Option Side → Result (Shared × List Notice)
drop s dropping = if s.dropped then ok (s, []) else (do
  (s', notices) ← drop_pending (record s { dropped = true }) s.pending
  ok (
    record s' { observers = none },
    notices
        ++ (notify_ends s.has_readable_end s.has_writable_end dropping
            ++ notify_dropped s.observers),
  ))

-- The type of the stream and those of the two buffers.
pub same_elem_types : (ℕ → ℕ) → MaybeType → MaybeType → MaybeType → Bool
same_elem_types resource_of t arriving parked =
    val_type_equal resource_of Identity.underlying t arriving
    && val_type_equal resource_of Identity.underlying arriving parked

pub same_instance : Shared → Pending → Pending → Bool
same_instance s a p =
    ((a.inst == p.inst) && ltb 0 (remain p.buffer))
    && (ltb 0 (remain a.buffer) && not (none_or_number_type s.elem))

-- The checks of an operation that finds another one parked.
pub check_ends : (ℕ → ℕ) → Shared → Pending → Pending → Result (Unit {0})
check_ends resource_of s a p = do
  assert (same_elem_types resource_of s.elem a.buffer.elem p.buffer.elem)
      "stream element type mismatch between ends"
  trap_if (same_instance s a p) "cannot read from and write to intra-component stream"

-- The stream, the arriving buffer and the one that was parked, and the contexts after an operation, and
-- the calls that it made.
pub record Outcome {fl : Floats} (host : Host fl) : Type 0 where
  pub shared : Shared
  pub arriving : Buffer
  pub parked : Option Buffer
  pub contexts : ℕ → HostCx host
  pub notices : List Notice

module _ {fl : Floats} (host : Host fl) where
  -- An operation that copies nothing.
  unfoldable pub outcome : Contexts host → Shared → Pending → List Notice → Outcome host
  outcome contexts s a notices = record {
    shared = s;
    arriving = a.buffer;
    parked = none;
    contexts = contexts;
    notices = notices;
  }

  -- The parked operation is retired, and the arriving one is parked.
  pub replace_pending : Contexts host → Shared → Pending → Result (Outcome host)
  replace_pending contexts s a = do
    (s', notices) ← reset_and_notify_pending s completed
    ok (outcome contexts (park s' a) a notices)

  -- `a` is the operation that arrives, `p` the one that is parked.
  pub read_from : Contexts host → Shared → Pending → Pending → Result (Outcome host)
  read_from contexts s a p =
      if ltb 0 (remain p.buffer)
      then (if ltb 0 (remain a.buffer)
          then (do
            (src, dst, contexts') ←
                rendezvous_copy host contexts p.buffer a.buffer
                  (min (remain a.buffer) (remain p.buffer))
            ok (record {
              shared = after_copy p.on_copy s p src;
              arriving = dst;
              parked = some src;
              contexts = contexts';
              notices = copied p.side ∷ done readable completed ∷ [];
            }))
          else ok (outcome contexts s a (done readable completed ∷ [])))
      else replace_pending contexts s a

  pub write_to : Contexts host → Shared → Pending → Pending → Result (Outcome host)
  write_to contexts s a p =
      if ltb 0 (remain p.buffer)
      then (if ltb 0 (remain a.buffer)
          then (do
            (src, dst, contexts') ←
                rendezvous_copy host contexts a.buffer p.buffer
                  (min (remain a.buffer) (remain p.buffer))
            ok (record {
              shared = after_copy p.on_copy s p dst;
              arriving = src;
              parked = some dst;
              contexts = contexts';
              notices = copied p.side ∷ done writable completed ∷ [];
            }))
          else ok (outcome contexts s a (done writable completed ∷ [])))
      else if is_zero_length a.buffer && is_zero_length p.buffer
      then ok (outcome contexts s a (done writable completed ∷ []))
      else replace_pending contexts s a

  pub read_pending :
      (ℕ → ℕ) → Contexts host → Shared → Pending → Option Pending → Result (Outcome host)
  read_pending resource_of contexts s a none = ok (outcome contexts (park s a) a [])
  read_pending resource_of contexts s a (some p) =
      check_ends resource_of s a p >> read_from contexts s a p

  pub read : (ℕ → ℕ) → Contexts host → Shared → Pending → Result (Outcome host)
  read resource_of contexts s a =
      if s.dropped
      then ok (outcome contexts s a (done readable CopyResult.dropped ∷ []))
      else read_pending resource_of contexts s a s.pending

  pub write_pending :
      (ℕ → ℕ) → Contexts host → Shared → Pending → Option Pending → Result (Outcome host)
  write_pending resource_of contexts s a none = ok (outcome contexts (park s a) a [])
  write_pending resource_of contexts s a (some p) =
      check_ends resource_of s a p >> write_to contexts s a p

  pub write : (ℕ → ℕ) → Contexts host → Shared → Pending → Result (Outcome host)
  write resource_of contexts s a =
      if s.dropped
      then ok (outcome contexts s a (done writable CopyResult.dropped ∷ []))
      else write_pending resource_of contexts s a s.pending
