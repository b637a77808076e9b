-- ===== src/Shared.antt =====
-- pkgs/microdoh3/src/shared.rs: the two pages of shared memory. A page is a value; the fields that a
-- call reads or writes are those of the source. `IpAddr` is the standard library's type.
pub mod Address
pub mod Upstream
pub mod Resolve
pub mod Scores
pub mod Seqlock
