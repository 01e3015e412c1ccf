-- ===== src/Task/CopyEnd/Tests.antt =====
-- The writable end of a future, before and after its value is delivered.
use polyengine.Base.{ℕ, ◌≡◌, refl, false, none, some, ok, err, trap}
use polyengine.Task.Waitable.{future_write}
use polyengine.Task.Stream.{CopyResult, writable}
use polyengine.Task.CopyEnd.{
  CopyState, idle, finished, future, CopyEnd, event_code, is_copying, is_finished, arm_idle_drop,
  idle_reason, notify_idle_drop, idle_event, deliver_idle_drop, busy_message, must_be_finished,
  drop_end,
}

-- What a test of the ends unfolds.
end_code : ℕ
unfolding event_code is_copying is_finished arm_idle_drop idle_reason notify_idle_drop idle_event
    deliver_idle_drop busy_message must_be_finished drop_end
end_code = 0

abbrev end_in : CopyState → CopyEnd
end_in state = record {
  kind = future;
  side = writable;
  state = state;
  index = some 4;
  has_event = false;
  idle_drop = none;
}

unwritten :
    drop_end (end_in idle) ≡ err (trap "cannot drop future write end without first writing a value")
unfolding end_code
unwritten = refl

written : drop_end (end_in finished) ≡ ok tt
unfolding end_code
written = refl

idle_drop_delivered :
    deliver_idle_drop (notify_idle_drop (end_in idle) none) none
    ≡ ok ((future_write, 4, CopyResult.dropped), end_in finished)
unfolding end_code
idle_drop_delivered = refl
