-- ===== src/Lib.antt =====
-- Verification of the polyengine runtime, runtime/src: the canonical ABI that moves values between
-- WebAssembly components and JavaScript, and the task state that its asynchronous calls share.
--
-- The parts of the program, and how they interact. A plan names the component's types. The canonical
-- ABI (runtime/src/cabi) despecializes them, lays them out in memory, flattens signatures to core
-- types, and lowers and lifts values; resources, subtasks, waitables and streams stand in handle
-- tables. The task state (runtime/src/task) keeps the calls in progress: a subtask is a waitable, it
-- borrows handles, and a waitable set delivers its members' events. The other parts (embedder,
-- exec, intrinsics, jspi, plan, digest, cache, shim) prepare and drive these two.
--
-- The files, and what they model:
--   Base            shared helpers. Base/Outcome is runtime/src/cabi/trap.ts: a trap, an assertion
--                   error or another error is a value, `Result`. Base/Bits has masks.
--   Cabi/Types      the types of runtime/src/cabi/types.ts. Equality is `valTypeEqual`, with the
--                   identity of resources as a parameter; Despecialize is `despecialize`.
--   Cabi/Despecialized  the types that despecialization leaves, and `discriminantSize`.
--   Cabi/Layout     runtime/src/cabi/layout.ts: `computeLayout` with `recordLayout`, `variantLayout`,
--                   `mkLayout` and the flags; `layout_of` is `layoutOf`.
--   Cabi/Flatten    runtime/src/cabi/flatten.ts: `flattenType`, `join`, `flattenFunctype`.
--   Cabi/Float      runtime/src/cabi/float.ts: the encodings of floats as integers.
--   Cabi/Lanes      the lanes of the payload of a flat variant, `lowerFlatVariant` of runtime/src/cabi/lower.ts and
--                   `liftFlatVariant` of runtime/src/cabi/lift.ts.
--   Cabi/Handles    runtime/src/cabi/handles.ts: resource handles, `liftOwn`, `liftBorrow`, `lowerOwn`,
--                   `lowerBorrow` and the `canonResource...` functions; lending is Task/Subtask.
--   Cabi/Memory     runtime/src/cabi/memory.ts: integers in linear memory, `load_int_u`, `load_int_s` and
--                   `store_int` for `loadIntU`, `loadIntS` and `storeInt`.
--   Cabi/Value      the values of runtime/src/cabi/types.ts that cross memory, their flags and chars.
--   Cabi/Access     runtime/src/cabi/store.ts and runtime/src/cabi/load.ts: the checks at an address, and the
--                   values without parts.
--   Cabi/Bulk       runtime/src/cabi/bulk_lists.ts: lists of numbers through typed arrays.
--   Cabi/Lists      the lists of runtime/src/cabi/load.ts and runtime/src/cabi/store.ts, and `reallocate` of
--                   runtime/src/cabi/context.ts.
--   Cabi/Strings    runtime/src/cabi/strings.ts: a string is the list of its code units; Storing has
--                   the functions that store. `load` and `store` reach strings through `Host`,
--                   not through this file.
--   Cabi/Store      runtime/src/cabi/store.ts and runtime/src/cabi/load.ts: `store` and `load`.
--   Cabi/Lift       runtime/src/cabi/lift.ts: `liftFlat` and its value iterators.
--   Cabi/Lower      runtime/src/cabi/lower.ts: `lowerFlat`.
--   Cabi/Spill      `liftFlatValues` and `lowerFlatValues` of runtime/src/cabi/values.ts.
--   Cabi/Table      the class `Table` of runtime/src/cabi/handles.ts.
--   Embedder/Text   JavaScript's operations on text that the embedder uses, on lists of code units.
--   Embedder/Casing  runtime/src/embedder/casing.ts: `camelCase`, `pascalCase` and `parseLeafName`.
--   Embedder/Version  runtime/src/embedder/version.ts: `parseInterfaceId`, `parseSemver`, `trackKey`,
--                   `asTrackKeySpelling` and `compareSemver`.
--   Embedder/Resolver  runtime/src/embedder/version.ts: `ImportResolver`, its constructor and `resolve`.
--   Task/Waitable   runtime/src/task/waitable.ts, and `chooseCandidate` of runtime/src/task/scheduler.ts.
--   Task/Subtask    runtime/src/task/subtask.ts.
--   Task/Buffer     runtime/src/task/streams.ts: `GuestBuffer` over the memory of its context, and
--                   `rendezvousCopy`.
--   Task/Stream     runtime/src/task/streams.ts: `SharedStreamImpl` with `read`, `write`, `cancel` and
--                   `drop`.
--   Task/Future     runtime/src/task/streams.ts: `SharedFutureImpl` with the same operations, `read_future`
--                   for its `read` and so on.
--   Task/CopyEnd    runtime/src/task/streams.ts: the four ends, their idle drop and what dropping requires.
--
-- How state and operations correspond. A class is a record of its fields, a method a function from
-- the state and its arguments to a `Result` of the new state; lifting and dropping a handle and
-- taking an event give the state beside the result, so that it is there after a throw as well. An
-- object that others refer to is named by its address in a store (`Store` of Task/Waitable, `Lends`
-- of Task/Subtask). The head of `free` in Cabi/Table is the last element of the array in the
-- source. Memo tables (`layoutCache` and its kin) are not modelled: the functions return what the
-- tables would hold.
--
-- What is a parameter: JavaScript's floats and `DataView` (the record `Floats`, with the
-- documented behaviour of reading back what was written), the identity of resources in
-- `valTypeEqual`, the number that the seeded scheduler draws, the destructor of a resource, what
-- the thunk of a pending event does, `toUpperCase`, the platform's text codecs (the record
-- `Codecs`), and, for `load`, `store`, `liftFlat` and `lowerFlat`, the record `Host`: what they call
-- for strings, handles, streams, futures and error contexts, and the guest's realloc, of which
-- nothing is assumed; a theorem on lists of any length, or on strings, names what it needs of realloc.
--
-- Numbers are unbounded naturals; where the source wraps, `% 2 ^ w` is written. Sizes and
-- offsets are JavaScript numbers in the source, and are taken as exact, and so are version
-- numbers. The decimal digits of a number n run on n + 1 as fuel, which is enough
-- (Embedder/Text/Lemmas); the other recursions are on types, lists and options.
--
-- Not modelled: of streams, the copying through their ends, the byte sessions of hosts, and what
-- callbacks do beyond reclaiming a buffer; the scheduler and its threads, the intrinsics, the
-- embedder but for its versions and names, the executor, WASI and the harness; the generators of
-- waitables, which suspend a thread. JSPI, the translator and the cache are the engine's, Rust's
-- and the platform's.
pub mod Base
pub mod Cabi
pub mod Embedder
pub mod Task
