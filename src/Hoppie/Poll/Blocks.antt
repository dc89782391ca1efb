-- ===== src/Hoppie/Poll/Blocks.antt =====
-- crates/openlink-hoppie/src/hoppie_client.rs: the loop of `parse_poll_response` ends.
use openlink.Prelude.{◌<◌, Text, Option, length, OnSome}

-- What follows a block is shorter than the text behind its opening brace.
abbrev Shorter : Text → Option (Text × Text) → Type 0
Shorter s = OnSome (λ (p : Text × Text). length p.1 < length s)
