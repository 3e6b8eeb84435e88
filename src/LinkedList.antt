-- ===== src/LinkedList.antt =====
-- src/linked_list.c: a circular doubly linked list around an anchor.
pub mod Memory
pub mod Ops
pub mod Ring
pub mod Insert
pub mod Remove
pub mod Link
pub mod Unlink
pub mod Frame
pub mod Adding
pub mod Walk
pub mod Taking
pub mod OutOfMemory
pub mod Pair
mod Tests
