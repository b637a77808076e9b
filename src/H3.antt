-- ===== src/H3.antt =====
-- pkgs/microdoh3/src/h3.rs: the HTTP/3 layer of the client.
pub mod Frames
pub mod Request
pub mod Status
pub mod Streams
