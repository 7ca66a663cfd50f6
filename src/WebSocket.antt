-- ===== src/WebSocket.antt =====
-- controller_api/websocket_transport.py: the frames, and the replay of events to a client.
pub mod Frame
pub mod Roundtrip
pub mod Bounds
pub mod Events
pub mod Growing
pub mod Delivery
mod Examples
