-- ===== src/Worker.antt =====
-- pkgs/microdoh3/src/worker.rs: one worker. Instants and durations are counts of nanoseconds.
pub mod Quality
pub mod Migration
pub mod Dispatch
pub mod Requests
pub mod Connection
