-- ===== src/Text.antt =====
-- crates/astli-text: spans, fixes and the registry of source text.
pub mod Span
pub mod Bytes
pub mod Fix
pub mod Origins
mod Examples
