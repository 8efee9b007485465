-- ===== src/Gateway.antt =====
-- The WebSocket endpoints (src/gateway).
pub mod Upload
pub mod Console
pub mod Origin
pub mod Socket
