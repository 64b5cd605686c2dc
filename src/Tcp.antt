-- ===== src/Tcp.antt =====
-- tcp_protocol.go, tcp_server.go and tcp_client.go: the network layer, by parts.
pub mod Protocol
pub mod Rows
pub mod Framing
pub mod Admission
pub mod Server
pub mod Client
pub mod Limits
pub mod Lifecycle
pub mod Replay
