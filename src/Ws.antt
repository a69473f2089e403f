-- ===== src/Ws.antt =====
-- src/core/ws_server.c: the WebSocket server.
pub mod Socket
pub mod Frame
pub mod Broadcast
pub mod Sha1
pub mod Base64
pub mod Request
pub mod Session
pub mod Threads
