-- ===== src/Packet.antt =====
-- src/ucp_packet.h and src/ucp_packet.c: the packets and their wire format.
pub mod Types
pub mod Init
pub mod Encode
pub mod Decode
pub mod Bytes
pub mod Wire
pub mod Received
pub mod RoundTrip
pub mod Made
pub mod Named
pub mod Errors
mod Tests
