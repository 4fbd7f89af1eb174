-- ===== src/Tcp.antt =====
-- client/internal/tcpclient: packets (packet.go) and the connection to the server (tcpclient.go).
pub mod Packet
pub mod Server
pub mod Connection
