-- ===== src/Tests.antt =====
-- Runs of the code on concrete inputs, and the theorems at such inputs.
pub mod Sorting
mod Classification
mod Membership
mod Tables
mod Inserting
mod Seeking
mod Pools
mod Locks
mod Waiting
mod Threads
mod Tasks
mod Logs
mod Trees
