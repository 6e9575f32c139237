-- ===== src/Utils.antt =====
-- Helpers of src/utils: the sessions of a Timeline, and InverseMapping.
pub mod Timeline
pub mod Mapping
pub mod Papi
mod Tests
