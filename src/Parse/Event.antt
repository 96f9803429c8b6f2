-- ===== src/Parse/Event.antt =====
-- crates/astli-parse/src/event.rs, `Event`. The kinds of crates/astli-syntax are a parameter.
use astli.Prelude.{ℕ, Option}

pub data Event {ℓ} (K : Type ℓ) : Type ℓ where
  start : K → Option ℕ → Event K
  tombstone : Event K
  token : K → Event K
  finish : Event K
