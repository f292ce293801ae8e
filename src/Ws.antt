-- ===== src/Ws.antt =====
-- web_server/ws: the websocket layer.
pub mod Bytes
pub mod Frame
pub mod Websocket
pub mod Connection
pub mod Base64
pub mod Handshake
mod Tests
