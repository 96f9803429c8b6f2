-- ===== src/Resolve.antt =====
-- crates/astli-resolve: what resolution chooses between.
pub mod Order
pub mod Candidate
pub mod Candidates
mod Examples
