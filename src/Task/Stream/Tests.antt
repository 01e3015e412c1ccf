-- ===== src/Task/Stream/Tests.antt =====
-- A stream of bytes on which instance 1 has parked a write of three, and instance 2 reads two.
use polyengine.Base.{
  ℕ, ◌^◌, ◌==◌, if◌then◌else◌, ◌≡◌, refl, true, false, Option, none, some, [], ◌∷◌, ok, err, trap,
  pos,
}
use polyengine.Cabi.Types.{MaybeType, ValType, PrimKind}
use polyengine.Cabi.Types.Equality.{val_type_equal}
use polyengine.Cabi.Types.Despecialize.{despecialize_all}
use polyengine.Cabi.Despecialized.{DespecializedType}
use polyengine.Cabi.Layout.{
  Layout, compute_layout, prim_layout, mk_layout, is_power_of_two, align_to, layout_of,
}
use polyengine.Cabi.Memory.{get_uint}
use polyengine.Cabi.Value.{int, element, no_elements}
use polyengine.Cabi.Access.{HostCx}
use polyengine.Cabi.Bulk.{HostElements, bytes_of, view_elements}
use polyengine.Cabi.Lists.{load_bulk, load_remaining, load_list_from_valid_range}
use polyengine.Cabi.Store.BulkLoad.{square}
use polyengine.Cabi.Store.Tests.{sample_host, start}
use polyengine.Task.Buffer.{
  Buffer, Contexts, remain, is_zero_length, is_null, advance_zero_width, load_range, check_place,
  new_buffer, rendezvous_copy,
}
use polyengine.Task.Stream.{
  CopyResult, readable, writable, done, idle_drop, observed, reclaims_now, reclaims_later, Pending,
  Shared, park, reset_pending, after_copy, notify_from, reset_and_notify_pending, drop_pending,
  notify_end, notify_ends, observe_all, notify_dropped, drop, same_elem_types, same_instance,
  check_ends, none_or_number_type, outcome, read_from, read_pending, read, write_pending, write,
}

-- What a test of the stream code unfolds.
stream_code : ℕ
unfolding remain is_zero_length is_null advance_zero_width check_place new_buffer rendezvous_copy
    park reset_pending after_copy notify_from reset_and_notify_pending drop_pending notify_end
    notify_ends observe_all notify_dropped drop same_elem_types val_type_equal same_instance
    check_ends none_or_number_type despecialize_all outcome read_from read_pending read
    write_pending write layout_of compute_layout prim_layout mk_layout is_power_of_two align_to
stream_code = 0

-- What a test of a load of bytes unfolds.
byte_code : ℕ
unfolding load_range load_list_from_valid_range load_bulk load_remaining bytes_of view_elements
    get_uint compute_layout prim_layout mk_layout is_power_of_two align_to
byte_code = 0

abbrev resource_of : ℕ → ℕ
resource_of rt = rt

abbrev pub u8 : ValType
u8 = ValType.prim PrimKind.u8

-- The memory of instance 1 has 10, 20 and 30 from address 4 on.
abbrev pub sender : HostCx sample_host
sender = record start {
  memory = record start.memory { byte = λ i. if i == 4 then 10 else if i == 5 then 20 else 30 };
}

abbrev pub contexts : Contexts sample_host
contexts i = if i == 1 then sender else start

abbrev pub buffer : ℕ → ℕ → ℕ → Buffer
buffer cx ptr count = record {
  elem = MaybeType.type u8;
  cx = cx;
  ptr = ptr;
  count = count;
  progress = 0;
}

abbrev three_written : Pending
three_written = record {
  inst = 1;
  buffer = buffer 1 4 3;
  side = writable;
  on_copy = reclaims_later;
}

-- A read of the host, say, that reclaims its buffer as it is told of a copy.
abbrev two_read : Pending
two_read = record { inst = 2; buffer = buffer 2 8 2; side = readable; on_copy = reclaims_now }

abbrev stream : Option Pending → Shared
stream pending = record {
  elem = MaybeType.type u8;
  dropped = false;
  pending = pending;
  has_readable_end = true;
  has_writable_end = true;
  observers = some (7 ∷ []);
}

abbrev two : HostElements sample_host
two = element (int (pos 10)) (element (int (pos 20)) no_elements)

outside :
    new_buffer sample_host contexts (MaybeType.type u8) 1 4 13 ≡ err (trap "buffer out of bounds")
unfolding stream_code
outside = refl

too_many :
    new_buffer sample_host contexts MaybeType.null 1 0 (2 ^ 28)
    ≡ err (trap "stream read/write count too large")
unfolding stream_code
too_many = refl

first_write_parks :
    write sample_host resource_of contexts (stream none) three_written
    ≡ ok (outcome sample_host contexts (stream (some three_written)) three_written [])
unfolding stream_code
first_write_parks = refl

-- Without a payload only the counts move.
abbrev units : ℕ → Buffer
units count = record { elem = MaybeType.null; cx = 1; ptr = 0; count = count; progress = 0 }

counts_only :
    rendezvous_copy sample_host contexts (units 9) (units 5) 5
    ≡ ok (record (units 9) { progress = 5 }, record (units 5) { progress = 5 }, contexts)
unfolding stream_code
counts_only = refl

abbrev pub bytes : Layout
bytes = square (DespecializedType.prim PrimKind.u8) 1

drop_told :
    drop (stream (some three_written)) (some readable)
    ≡ ok (
      record (stream none) { dropped = true; observers = none },
      done writable CopyResult.dropped ∷ idle_drop writable ∷ observed 7 ∷ [],
    )
unfolding stream_code
drop_told = refl
