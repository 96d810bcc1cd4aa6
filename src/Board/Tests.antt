-- ===== src/Board/Tests.antt =====
-- The theorems about the boards at concrete driver numbers, clocks and writers.
mod Microbits
mod Picos
