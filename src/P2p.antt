-- ===== src/P2p.antt =====
-- p2p: frames on a connection, the server's table of peers, and the handling of messages.
pub mod Frame
pub mod Server
pub mod Peer
pub mod Message
pub mod Handshake
pub mod Reader
pub mod Lifecycle
pub mod Delivery
