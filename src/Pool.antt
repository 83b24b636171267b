-- ===== src/Pool.antt =====
-- pkg/pool/pool.go: the pools of game servers. Every exported method holds the manager's mutex
-- from beginning to end, so each is one step: a function from the manager to its result and the
-- new manager. `now` is the reading of the clock in the call, in nanoseconds.
pub mod Scheduler
pub mod State
pub mod Calls
pub mod Query
pub mod Nodes
pub mod Frame
pub mod Invariant
pub mod Edits
pub mod Abstract
pub mod Refinement
pub mod Allocation
pub mod Figures
pub mod Idle
