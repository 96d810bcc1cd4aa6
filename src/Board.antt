-- ===== src/Board.antt =====
-- The two boards of kernel/: the dispatch of system calls to drivers, and what stands behind a match
-- on driver numbers.
pub mod Dispatch
pub mod Uart
pub mod Resources
pub mod Microbit
pub mod Pico
mod Tests
