-- ===== src/Task/Future/Tests.antt =====
-- A future of a byte on which instance 1 has parked the write of 10, and instance 2 reads it.
use polyengine.Base.{ℕ, ◌≡◌, refl, true, false, Option, none, some, [], ◌∷◌, ok, err, error, pos}
use polyengine.Cabi.Types.{MaybeType}
use polyengine.Cabi.Value.{int, element, no_elements}
use polyengine.Cabi.Bulk.{HostElements}
use polyengine.Cabi.Store.Tests.{sample_host}
use polyengine.Task.Buffer.{remain}
use polyengine.Task.Stream.{
  CopyResult, readable, writable, done, idle_drop, reclaims_later, Pending, none_or_number_type,
  notify_end, notify_ends, notify_dropped, observe_all,
}
use polyengine.Task.Stream.Tests.{u8, contexts, buffer}
use polyengine.Task.Future.{
  SharedFuture, park_future, reset_future, abandoned, check_instance, future_outcome,
  notify_future_from, notify_future, drop_parked, drop_future, read_future, write_parked,
  write_future,
}

-- What a test of the future code unfolds.
future_code : ℕ
unfolding remain none_or_number_type notify_end notify_ends notify_dropped park_future reset_future
    abandoned check_instance future_outcome notify_future_from notify_future drop_parked drop_future
    read_future write_parked write_future
future_code = 0

abbrev written : Pending
written = record { inst = 1; buffer = buffer 1 4 1; side = writable; on_copy = reclaims_later }

abbrev arriving : Pending
arriving = record { inst = 2; buffer = buffer 2 8 1; side = readable; on_copy = reclaims_later }

abbrev future : Option Pending → SharedFuture
future pending = record {
  elem = MaybeType.type u8;
  dropped = false;
  abandon_reason = none;
  pending = pending;
  has_readable_end = true;
  has_writable_end = true;
  observers = some [];
}

abbrev ten : HostElements sample_host
ten = element (int (pos 10)) no_elements

write_parks :
    write_future sample_host contexts (future none) written
    ≡ ok (future_outcome sample_host contexts (future (some written)) written [])
unfolding future_code
write_parks = refl

reader_told :
    drop_future (future (some arriving)) (some writable)
    ≡ ok (
      record (future none) { dropped = true; observers = none },
      done readable CopyResult.dropped ∷ idle_drop readable ∷ [],
    )
unfolding future_code observe_all
reader_told = refl

late_read :
    read_future sample_host contexts
      (record (future none) { dropped = true; abandon_reason = some "gone" })
      arriving
    ≡ err (error "gone")
unfolding future_code
late_read = refl
