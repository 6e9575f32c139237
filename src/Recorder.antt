-- ===== src/Recorder.antt =====
-- The message recorder and replayer of src/msg_recorder: keys (Key), the strategies that start a new
-- file (Rolling), the iterators over a file (Iterator) and the merging replayer (Replay).
pub mod Configuration
pub mod Key
pub mod Layout
pub mod Rolling
pub mod File
pub mod Iterator
pub mod Replay
pub mod Snapshot
mod Tests
