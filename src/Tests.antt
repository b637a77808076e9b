-- ===== src/Tests.antt =====
-- Runs of the definitions at concrete inputs, and the theorems at inputs that meet their hypotheses.
mod Wire
mod Streams
mod Messages
mod Workers
mod Connections
mod Supervision
mod Processors
mod Resolution
