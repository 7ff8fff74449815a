-- ===== src/Tunnel.antt =====
-- internal/tunnel: the agent. One WebSocket session to the edge carries the visitors' streams.
pub mod Flow
pub mod Calls
pub mod CloseReason
pub mod Http
pub mod Ws
pub mod Session
pub mod Writer
pub mod Handshake
pub mod Client
pub mod Answer
pub mod LocalRequest
