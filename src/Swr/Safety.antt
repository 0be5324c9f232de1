-- ===== src/Swr/Safety.antt =====
-- A SwrCache under any interleaving: no answer has a value that nothing gave for its key
-- (src/swr.rs).
pub mod Values
pub mod Others
pub mod Reads
pub mod Calls
pub mod Schedules
