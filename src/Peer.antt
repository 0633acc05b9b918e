-- ===== src/Peer.antt =====
-- internal/peer: the wire format of the peer protocol.
pub mod Bitfield
pub mod MessageId
pub mod Message
pub mod Payload
pub mod Handshake
pub mod Conn
pub mod Listener
pub mod Connect
pub mod Tests
