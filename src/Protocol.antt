-- ===== src/Protocol.antt =====
-- The MQTT 3.1.1 protocol, src/protocol.
pub mod Types
pub mod Codec
