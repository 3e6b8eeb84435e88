-- ===== src/Udp.antt =====
-- src/udp_socket.c, and the first datagram between src/ucp_client.c and src/ucp_server.c.
pub mod Sockets
pub mod Opening
pub mod Reaching
mod Tests
