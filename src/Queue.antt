-- ===== src/Queue.antt =====
-- packages/queue/src: a bounded-concurrency job queue, its retry policy and its in-memory store.
pub mod Types
pub mod State
pub mod Schedule
pub mod Handlers
pub mod Api
pub mod Step
pub mod Invariant
pub mod History
pub mod MemoryStore
pub mod Examples
