-- ===== src/Sequencer.antt =====
-- src/sequencer.h and src/sequencer.c: which sequence numbers have arrived, on the list of ranges and on the
-- linked list in memory.
pub mod Ops
pub mod Ranges
pub mod Add
pub mod Record
pub mod Missing
pub mod Complete
pub mod InOrder
pub mod Store
pub mod Loops
pub mod Stored
pub mod Changing
pub mod Reading
pub mod Merging
pub mod Previous
pub mod Inserting
pub mod Adding
pub mod Equal
pub mod Completing
pub mod Whole
pub mod Asking
pub mod Destroying
pub mod NoMemory
pub mod Growth
pub mod Starting
mod Tests
