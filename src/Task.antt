-- ===== src/Task.antt =====
-- runtime/src/task: subtasks, waitables, streams and futures.
pub mod Waitable
pub mod Subtask
pub mod Buffer
pub mod Stream
pub mod Future
pub mod CopyEnd
