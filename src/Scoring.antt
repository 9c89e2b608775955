-- ===== src/Scoring.antt =====
-- backend/app/services/scoring.py. `Dimensions` has the ten dimensions and the coercion of inputs,
-- `Verdict` the mapping of a score to a recommendation, `Engine` the score itself and `Weights` the
-- building and checking of weight vectors.
pub mod Dimensions
pub mod Verdict
pub mod Engine
pub mod Stored
pub mod Factors
pub mod Units
pub mod Derived
pub mod Service
pub mod Table
pub mod Weights
mod Tests
mod ServiceTests
