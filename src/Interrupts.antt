-- ===== src/Interrupts.antt =====
-- bothy/interrupts.py: the questions that wait for a human, and what a message does with them.
pub mod Board
pub mod Handed
pub mod Caps
pub mod Replay
pub mod Examples
