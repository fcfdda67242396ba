-- ===== src/Network.antt =====
-- internal/network: the frames of the binary protocol (protocol.go) and its server (server.go).
pub mod Frame
pub mod Server
