-- ===== src/Tools.antt =====
-- backend/app/tools: the tool layer. `Types` has its data, `Budget`, `RateLimit`, `Registry`,
-- `Executor` and `Invoke` the files of those names (`Invoke` the second half of the executor); the proofs stand in their children.
pub mod Types
pub mod Budget
pub mod RateLimit
pub mod Registry
pub mod Executor
pub mod Invoke
mod Tests
