-- ===== src/Task/Future.antt =====
-- runtime/src/task/streams.ts: the class `SharedFutureImpl`, where the read and the write of a future
-- meet. Buffers, contexts, operations that are parked, and calls of callbacks are those of a stream. The
-- operations have no `onCopy`, and do not read the field. The reason of an abandonment is its message.
pub mod Delivery
mod Tests
use polyengine.Base.{
  ℕ, Bool, true, false, not, ◌&&◌, Option, none, some, List, [], ◌∷◌, ◌++◌, String, Result, ok, err,
  error, assertion_error, ◌>>=◌, ◌>>◌, assert, trap_if, ◌==◌, if◌then◌else◌,
}
use polyengine.Cabi.Types.{MaybeType}
use polyengine.Cabi.Float.{Floats}
use polyengine.Cabi.Value.{Host}
use polyengine.Cabi.Access.{HostCx}
use polyengine.Task.Buffer.{Buffer, Contexts, remain, copy_elements}
use polyengine.Task.Stream.{
  CopyResult, completed, Side, readable, writable, Notice, done, Pending, none_or_number_type,
  notify_ends, notify_dropped,
}

pub record SharedFuture : Type 0 where
  pub elem : MaybeType
  pub dropped : Bool
  pub abandon_reason : Option String
  pub pending : Option Pending
  pub has_readable_end : Bool
  pub has_writable_end : Bool
  pub observers : Option (List ℕ)

-- A reader that arrives after the writer has gone without a value: `futureAbandonTrap` of the reason.
pub abandoned : Bool → Option String → Result (Unit {0})
abandoned false reason = ok tt
abandoned true none = ok tt
abandoned true (some reason) = err (error reason)

pub park_future : SharedFuture → Pending → SharedFuture
park_future f p = record f { pending = some p }

pub reset_future : SharedFuture → SharedFuture
reset_future f = record f { pending = none }

pub notify_future_from :
    SharedFuture → CopyResult → Option Pending → Result (SharedFuture × List Notice)
notify_future_from f result none =
    err (assertion_error "reset_and_notify_pending with nothing pending")
notify_future_from f result (some p) = ok (reset_future f, done p.side result ∷ [])

pub notify_future : SharedFuture → CopyResult → Result (SharedFuture × List Notice)
notify_future f result = notify_future_from f result f.pending

pub cancel_future : SharedFuture → Result (SharedFuture × List Notice)
cancel_future f = notify_future f CopyResult.cancelled

pub check_instance : SharedFuture → Pending → Pending → Result (Unit {0})
check_instance f a p =
    trap_if ((a.inst == p.inst) && not (none_or_number_type f.elem))
      "cannot read from and write to intra-component future"

pub drop_parked : SharedFuture → Option Pending → Result (SharedFuture × List Notice)
drop_parked f none = ok (f, [])
drop_parked f (some p) = notify_future f CopyResult.dropped

-- `drop` of the shared future by one of its ends, or by neither.
pub drop_future : SharedFuture → Option Side → Result (SharedFuture × List Notice)
drop_future f dropping = if f.dropped then ok (f, []) else (do
  (f', notices) ← drop_parked (record f { dropped = true }) f.pending
  ok (
    record f' { observers = none },
    notices
        ++ (notify_ends f.has_readable_end f.has_writable_end dropping
            ++ notify_dropped f.observers),
  ))

-- The future, the arriving buffer and the one that was parked, and the contexts after an operation, and
-- the calls that it made.
pub record FutureOutcome {fl : Floats} (host : Host fl) : Type 0 where
  pub shared : SharedFuture
  pub arriving : Buffer
  pub parked : Option Buffer
  pub contexts : ℕ → HostCx host
  pub notices : List Notice

module _ {fl : Floats} (host : Host fl) where
  -- An operation that copies nothing.
  pub future_outcome : Contexts host → SharedFuture → Pending → List Notice → FutureOutcome host
  future_outcome contexts f a notices = record {
    shared = f;
    arriving = a.buffer;
    parked = none;
    contexts = contexts;
    notices = notices;
  }

  -- `a` is the operation that arrives, `p` the one that is parked.
  pub read_parked :
      Contexts host → SharedFuture → Pending → Option Pending → Result (FutureOutcome host)
  read_parked contexts f a none = ok (future_outcome contexts (park_future f a) a [])
  read_parked contexts f a (some p) = do
    check_instance f a p
    (src, dst, contexts') ← copy_elements host contexts p.buffer a.buffer 1
    (f', notices) ← notify_future f completed
    ok (record {
      shared = f';
      arriving = dst;
      parked = some src;
      contexts = contexts';
      notices = notices ++ (done readable completed ∷ []);
    })

  pub read_future : Contexts host → SharedFuture → Pending → Result (FutureOutcome host)
  read_future contexts f a = do
    abandoned f.dropped f.abandon_reason
    assert (not f.dropped && (remain a.buffer == 1)) "future read shape"
    read_parked contexts f a f.pending

  pub write_parked :
      Contexts host → SharedFuture → Pending → Option Pending → Result (FutureOutcome host)
  write_parked contexts f a none = ok (future_outcome contexts (park_future f a) a [])
  write_parked contexts f a (some p) = do
    check_instance f a p
    (src, dst, contexts') ← copy_elements host contexts a.buffer p.buffer 1
    (f', notices) ← notify_future f completed
    ok (record {
      shared = f';
      arriving = src;
      parked = some dst;
      contexts = contexts';
      notices = notices ++ (done writable completed ∷ []);
    })

  pub write_future : Contexts host → SharedFuture → Pending → Result (FutureOutcome host)
  write_future contexts f a =
      assert (remain a.buffer == 1) "future write shape"
      >> (if f.dropped
          then ok (future_outcome contexts f a (done writable CopyResult.dropped ∷ []))
          else write_parked contexts f a f.pending)
