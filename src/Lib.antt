-- ===== src/Lib.antt =====
-- Verification of cris-core, the core library of a message-passing runtime: a job runner with strands
-- (src/sched), typed messages between nodes (src/msg), a recorder and replayer of messages
-- (src/msg_recorder) and a profiling timer (src/timer). Paths are those of the repository.
--
-- How the parts interact. A node publishes a message to a channel; SubscriptionMap finds the nodes that
-- subscribe to the channel, and each of them gives a job to its JobRunner, on a strand where the
-- subscription has one. A strand hands one job at a time to the runner; the runner spreads jobs over
-- the queues of its workers, which steal from each other and sleep when there is nothing to do. A
-- MessageRecorder is a node whose callbacks write to record files; a MessageReplayer reads record
-- files and publishes their messages again.
--
-- Which file models what:
--   Prelude: native numbers, lists by index, tests, integers, powers of two (std::bit_ceil).
--   Sched/LockQueue: JobLockQueue of src/sched/job_lock_queue.h and .cc (new, expand_unsafe, push,
--     push_batch, consume_one, consume_all, is_empty), with the calls of JobQueue in
--     LockQueue/Calls and the growth that overlaps in LockQueue/Overlap. A call takes the lock for its
--     whole length and is one function on the state.
--   Sched/LockFreeQueue: JobLockFreeQueue of src/sched/job_lockfree_queue.h and .cc over a queue of
--     pointers that is a parameter, with the memory of the jobs.
--   Sched/Strand: JobRunnerStrand and JobAliveToken of src/sched/job_runner.cc as a step relation over
--     all interleavings of decisions under the lock, pushes to the runner, runs and token destructions.
--   Sched/Runner: JobRunner of src/sched/job_runner.h and .cc (add_job, add_jobs,
--     notify_one_worker, steal, add_job_try); Sched/Worker: the worker loop with the count of active
--     workers; Sched/Runner/Shutdown: Stop, Join and the destructor beside the loops of all workers,
--     one access to shared state at a time, with the shared count.
--   Sched/SpinMutex: HybridSpinMutex of src/sched/spin_mutex.h and .cc, threads interleaved at each
--     access to the flag.
--   Msg/SubscriptionMap, Msg/Node: SubscriptionMap of src/msg/message.cc and CRNode of src/msg/node.cc;
--     a world is the table with the nodes that exist, and nodes are made, subscribed and destroyed
--     in any order.
--   Timer/Stat, Timer/Collect, Timer/Report, Timer/Section: src/timer/timer.h and timer_enable.cc: one
--     collector, the collectors of all threads with the totals, the reports, and the registry of
--     sections under any number of threads.
--   Recorder/Key: RecordFileKey of src/msg_recorder/record_key.cc (make, to_bytes, from_bytes,
--     from_bytes_legacy, compare_keys). Recorder/Rolling: the helpers of
--     src/msg_recorder/rolling_helper.cc, RecordFile::Write and CreateRollingHelper. Recorder/File:
--     RecordFile of src/msg_recorder/record_file.cc opened, closed and rolled on a disk.
--     Recorder/Iterator: its iterators. Recorder/Replay: MessageReplayer of
--     src/msg_recorder/replayer.cc. Recorder/Snapshot: SnapshotWorker and
--     MaintainMaxNumOfSnapshots of src/msg_recorder/recorder.cc, with GenerateSnapshot and
--     StopSnapshotWorker as threads in Snapshot/Handshake and GenerateSnapshotImpl on the disk of
--     Recorder/File in Snapshot/Directory. Recorder/Layout: the names and the listing of
--     src/msg_recorder/impl/utils.cc and what record_file.cc and replayer.cc make of them.
--     Recorder/Configuration: the parser of src/msg_recorder/recorder_config.cc.
--   Timer/Session: TimerSession of src/timer/timer.cc and timer_enable.cc.
--   Sched/Runner/Configuration: the parser of src/sched/job_runner_config_parser.cc.
--   Config: ConfigFile of src/config/config.h and config.cc (register_or_get, get), with its document
--     in Config/Document, InitValue in Config/Scalar and ConfigDataGetStringRep in Config/Printing;
--     Config/Json is what all parsers take from simdjson.
--   Utils/Timeline: the sessions of src/utils/timeline.cc on one thread, and its push, pop and print in
--     Timeline/Print. Utils/Mapping: InverseMapping of src/utils/mapping.h. Utils/Papi: PAPIStat of
--     src/utils/papi.h and papi.cc.
--
-- Numbers. Counters of 64 bits wrap in the model where they wrap in the code and the code does not
-- bound them (the timer's hits and sums, the size of a rolled file, the counters of keys, the count of
-- active workers, the collector indices of sections, the entries of a session of the timeline). The sum of durations is signed in the code, where its overflow is undefined; the
-- model wraps its bit pattern. The doubles of GetPercentileDurationNsec are exact while hits times
-- percent stay below 2 ^ 53; the model rounds exactly. Clocks give numbers and are inputs.
--
-- Loops are structural recursion on lists or on a number of turns that the code fixes (the thread_num
-- turns of Steal, the 32 buckets of a timer entry). std::bit_ceil doubles on a fuel of the number
-- itself, which is enough since each doubling adds one at least. The loop that skips unreadable keys
-- and the loop over an iterator run on a fuel that is at least the number of entries ahead, which the
-- theorem on them takes as its bound. The worker loop and the replay loop, which run until they are
-- stopped, are a list of turns and a step relation; that the replay loop comes to its end is a
-- theorem.
--
-- Code that the repository does not contain is a parameter: a leveldb::Iterator with the law that it
-- passes a finite sequence of entries, leveldb::DB::Open as what it makes of a directory, the queue of
-- boost with the order that it keeps, the accessors of simdjson with the kind of error that they
-- return, the calls of PAPI with the laws on event sets that it documents, and what the file system
-- answers. The standard heap and priority queue give some greatest entry, which of several is left
-- open; the order of an unordered map, and the place of a new entry in a map, are parameters too.
--
-- Not modelled: logging, signal handlers, the disabled timer, the simple timer, the layout of the
-- printed reports and of the printed timeline, symlinks and compaction of the record file, the
-- callbacks of the recorder and the replayer, the type names of defs.cc, clocks, and the constructor of
-- the runner while its first workers run already.
pub mod Prelude
pub mod Sched
pub mod Msg
pub mod Timer
pub mod Recorder
pub mod Utils
pub mod Config
