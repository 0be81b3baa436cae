-- ===== src/Tests.antt =====
-- Tests, and the theorems at concrete inputs where their hypotheses hold.
mod Background
mod Caches
mod Moves
mod Owners
mod Puts
mod Readers
mod Reads
mod Rings
mod Runs
mod SkipLists
mod Tables
mod Turns
mod Versions
mod Writes
