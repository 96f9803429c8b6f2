-- ===== src/Preproc.antt =====
-- crates/astli-preproc: the tokens of a file, the directives among them, and the regions that
-- they make conditional.
pub mod Kind
pub mod Tokens
pub mod Directive
pub mod Conditional
mod Examples
