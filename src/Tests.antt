-- ===== src/Tests.antt =====
-- The theorems at concrete inputs: `f64` is the fixed-point `fixed`, a semaphore is `counter`, and
-- the cache's LRU is the association list `pairs`.
pub mod Limits
pub mod Resolvers
pub mod Control
pub mod Workers
pub mod Answers
pub mod Names
pub mod Inputs
pub mod Clients
pub mod Bindings
