-- ===== src/Sema.antt =====
-- crates/astli-sema: the values of constant evaluation.
pub mod Bits
mod Examples
