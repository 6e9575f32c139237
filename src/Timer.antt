-- ===== src/Timer.antt =====
-- The timer of src/timer (timer.h and timer_enable.cc): buckets and collectors of one thread
-- (Stat), their collection into the totals (Collect), the reports that are read from the totals
-- (Report), the registry of the sections (Section), and the sessions that time them (Session).
pub mod Stat
pub mod Collect
pub mod Report
pub mod Section
pub mod Session
mod Tests
