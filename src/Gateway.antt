-- ===== src/Gateway.antt =====
-- src/core/telemetry_gateway.c: the queue between the MQTT callback and the writer thread, the
-- conversion of a message to a sample, and the writer thread's rounds.
pub mod Queue
pub mod Message
pub mod Writer
pub mod Run
pub mod Lifecycle
pub mod Statistics
