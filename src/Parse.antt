-- ===== src/Parse.antt =====
-- crates/astli-parse: the events that the grammar's rules record, and what they resolve to.
pub mod Event
pub mod Events
mod Examples
