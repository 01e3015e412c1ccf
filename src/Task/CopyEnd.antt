-- ===== src/Task/CopyEnd.antt =====
-- runtime/src/task/streams.ts: the ends of streams and futures, `CopyEnd` and the four classes that
-- extend it. `idle_drop` is the pending event that `armIdleDrop` sets, with the reason of an
-- abandonment as its message; `has_event` tells of any other pending event.
mod Tests
use polyengine.Base.{
  ℕ, Bool, true, false, not, ◌||◌, Option, none, some, String, Result, ok, err, error,
  assertion_error, ◌>>◌, trap_if, if◌then◌else◌, ◌≡◌, arith,
}
use polyengine.Task.Waitable.{
  EventCode, stream_read, stream_write, future_read, future_write, is_some,
}
use polyengine.Task.Stream.{CopyResult, Side, readable, writable}

data CopyState : Type 0 where
  idle copying cancelling_copy finished : CopyState

data EndKind : Type 0 where
  stream future : EndKind

record CopyEnd : Type 0 where
  pub kind : EndKind
  pub side : Side
  pub state : CopyState
  pub index : Option ℕ
  pub has_event : Bool
  pub idle_drop : Option (Option String)

event_code : EndKind → Side → EventCode
event_code stream readable = stream_read
event_code stream writable = stream_write
event_code future readable = future_read
event_code future writable = future_write

is_copying : CopyState → Bool
is_copying copying = true
is_copying cancelling_copy = true
is_copying _ = false

is_finished : CopyState → Bool
is_finished finished = true
is_finished _ = false

arm_idle_drop : CopyEnd → Option String → CopyEnd
arm_idle_drop e abandon_reason =
    if is_finished e.state || (e.has_event || is_some e.idle_drop)
    then e
    else record e { idle_drop = some abandon_reason }

-- Only the readable end of a future passes on why the writer is gone.
idle_reason : EndKind → Side → Option String → Option String
idle_reason future readable reason = reason
idle_reason _ _ reason = none

notify_idle_drop : CopyEnd → Option String → CopyEnd
notify_idle_drop e reason = arm_idle_drop e (idle_reason e.kind e.side reason)

idle_event : CopyEnd → Option ℕ → Result ((EventCode × ℕ × CopyResult) × CopyEnd)
idle_event e none = err (assertion_error "idle async event without owner index")
idle_event e (some i) = ok (
  (event_code e.kind e.side, i, CopyResult.dropped),
  record e { state = finished; idle_drop = none },
)

-- The thunk of the idle event, which runs when the event is delivered.
deliver_idle_drop : CopyEnd → Option String → Result ((EventCode × ℕ × CopyResult) × CopyEnd)
deliver_idle_drop e (some reason) = err (error reason)
deliver_idle_drop e none = idle_event e e.index

busy_message : EndKind → Side → String
busy_message stream readable = "cannot remove busy stream"
busy_message stream writable = "cannot drop busy stream"
busy_message future readable = "cannot remove busy future"
busy_message future writable = "cannot drop busy future"

must_be_finished : EndKind → Side → Bool
must_be_finished future writable = true
must_be_finished _ _ = false

-- What `drop` of an end requires before it drops the shared object and leaves its waitable set.
drop_end : CopyEnd → Result (Unit {0})
drop_end e = do
  trap_if (if must_be_finished e.kind e.side then not (is_finished e.state) else false)
      "cannot drop future write end without first writing a value"
  trap_if (is_copying e.state) (busy_message e.kind e.side)

-- An end that can be dropped is not copying, and if it is the writable end of a future, its value
-- is delivered.
drop_end-ok :
    (e : CopyEnd)
    → drop_end e ≡ ok tt
    → (is_copying e.state ≡ false)
      × (must_be_finished e.kind e.side ≡ true → is_finished e.state ≡ true)
unfolding drop_end
drop_end-ok e h = (ground arith, λ m. ground arith)
