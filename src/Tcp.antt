-- ===== src/Tcp.antt =====
-- src/tcp_socket.h and src/tcp_socket.c: the TCP server that polls its connections, and the TCP client.
pub mod Server
pub mod Rounds
pub mod Ticking
pub mod Stopping
pub mod Client
pub mod Valid
mod Tests
