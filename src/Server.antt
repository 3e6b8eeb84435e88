-- ===== src/Server.antt =====
-- src/ucp_server.c: the queue between its two threads, both threads, and what main does with the first
-- datagram.
pub mod Queue
pub mod Fifo
pub mod Sequencing
pub mod Setup
pub mod Control
pub mod Answering
pub mod Receiving
pub mod Threads
pub mod Acknowledged
pub mod Delivered
pub mod Thread
mod Tests
