-- ===== src/Client.antt =====
-- src/ucp_client.c: the windows of packets, the loop of block_thread, the times that it reports, and main.
pub mod Statistics
pub mod Windows
pub mod Held
pub mod Finding
pub mod Choosing
pub mod Sent
pub mod Moved
pub mod Answered
pub mod Exchange
pub mod Loop
pub mod Fresh
pub mod Protocol
pub mod Fitting
pub mod Refined
pub mod Kept
pub mod Main
mod Tests
