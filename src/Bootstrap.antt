-- ===== src/Bootstrap.antt =====
-- pkgs/microdoh3/src/bootstrap.rs: the addresses of the upstream's host, resolved at the start and again
-- when they expire. The DNS packet library is a parameter: `parse` gives what the code reads of a packet.
pub mod Answers
pub mod Query
pub mod Async
pub mod Limits
