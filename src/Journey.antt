-- ===== src/Journey.antt =====
-- The way of a reading through both programs: src/core/telemetry_state_pub.c publishes snapshots of the
-- cache, and src/core/telemetry_gateway.c receives, stores and streams them. The broker between them is
-- a hypothesis: what it delivers, in which order.
pub mod Messages
pub mod Stored
mod Examples
