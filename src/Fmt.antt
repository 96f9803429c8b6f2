-- ===== src/Fmt.antt =====
-- crates/astli-fmt: documents, and the printer that lays them out.
pub mod Doc
mod Examples
