-- ===== src/Supervisor.antt =====
-- pkgs/microdoh3/src/main.rs: the supervisor, which forks the workers, restarts them, keeps the addresses
-- of the upstream and turns the workers' scores into weights. Instants count nanoseconds.
pub mod Restarts
pub mod Cpus
pub mod Candidates
pub mod Weights
pub mod Refresh
pub mod Publication
