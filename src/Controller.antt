-- ===== src/Controller.antt =====
-- The adaptive controller (src/controller.rs): the state of one resolver, of the global rate, and
-- the tick over the whole pool. The vectors of `AdaptiveController` that are indexed by resolver
-- are one list of records here.
pub mod Judge
pub mod Episodes
pub mod Resolver
pub mod Floors
pub mod Global
pub mod Ceiling
pub mod Tick
pub mod Settling
pub mod Startup
pub mod Runs
pub mod Spawn
