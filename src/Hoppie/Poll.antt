-- ===== src/Hoppie/Poll.antt =====
-- crates/openlink-hoppie/src/hoppie_client.rs: the response to a poll. A part of a text between two
-- ASCII bytes is a text, so the code's check for UTF-8 does not fail; `none` is the other error. The
-- loop over the blocks runs on fuel.
pub mod Blocks
use openlink.Prelude.{
  ℕ, zero, suc, ◌+◌, ◌-◌, Text, text, Bool, true, false, not, ◌||◌, Option, none, some, List, [],
  ◌∷◌, ◌==◌, ◌=t◌, length, to_lowercase, before, after, trim, strip_prefix, map_option, and_then,
  unwrap_or, if◌then◌else◌,
}

pub data HoppieMessageType : Type 0 where
  cpdlc : HoppieMessageType
  telex : HoppieMessageType
  other : Text → HoppieMessageType

pub record HoppieMessage : Type 0 where
  pub from : Text
  pub msg_type : HoppieMessageType
  pub packet : Text

abbrev type_of_lower : Text → HoppieMessageType
type_of_lower s = if s =t text "cpdlc" then cpdlc else if s =t text "telex" then telex else other s

unfoldable pub from_str : Text → HoppieMessageType
from_str s = type_of_lower (to_lowercase s)

unfoldable pub as_str : HoppieMessageType → Text
as_str cpdlc = text "cpdlc"
as_str telex = text "telex"
as_str (other s) = s

-- `s.strip_suffix(c)`
unfoldable pub strip_last : ℕ → Text → Option Text
strip_last c [] = none
strip_last c (d ∷ s) =
    let shorter = map_option (λ t. d ∷ t) (strip_last c s) in
    elim s [ [] ↦ if d == c then some [] else none | _ ∷ _ ↦ shorter ]

-- `strip_prefix('{').and_then(|s| s.strip_suffix('}'))`
abbrev unbraced : Text → Option Text
unbraced s = and_then (strip_last 125) (strip_prefix (123 ∷ []) s)

abbrev message_of : Text → Text → Option Text → Option HoppieMessage
message_of from msg_type none = none
message_of from msg_type (some packet_raw) = some (record {
  from = from;
  msg_type = from_str msg_type;
  packet = unwrap_or (trim packet_raw) (unbraced (trim packet_raw));
})

unfoldable pub parse_message_block : Text → Option HoppieMessage
parse_message_block block =
    and_then (λ rest. message_of (before 32 block) (before 32 rest) (after 32 rest))
      (after 32 block)

-- The search for the matching brace: the block in front of it, and what follows it.
unfoldable pub match_brace : ℕ → Text → Option (Text × Text)
match_brace depth [] = none
match_brace depth (c ∷ s) =
    let keep = map_option (λ (p : Text × Text). (c ∷ p.0, p.1)) in
    let deeper = keep (match_brace (depth + 1) s) in
    let outer = keep (match_brace (depth - 1) s) in
    let same = keep (match_brace depth s) in
    if c == 123
    then deeper
    else if c == 125
    then if depth == 1 then some ([], s) else outer
    else same

-- `while remaining.first() == Some(&b' ') || remaining.first() == Some(&b'\n')`
unfoldable pub skip_blanks : Text → Text
skip_blanks [] = []
skip_blanks (c ∷ s) = let rest = skip_blanks s in if c == 32 || c == 10 then rest else c ∷ s

abbrev push : Option HoppieMessage → List HoppieMessage → List HoppieMessage
push none messages = messages
push (some m) messages = m ∷ messages

abbrev block_then : (Text → List HoppieMessage) → Option (Text × Text) → List HoppieMessage
block_then more none = []
block_then more (some p) = push (parse_message_block (trim p.0)) (more p.1)

-- A round of the loop behind the white space: the block between the braces, and the further rounds.
abbrev round : (Text → List HoppieMessage) → Text → List HoppieMessage
round more [] = []
round more (c ∷ s) = if c == 123 then block_then more (match_brace 1 s) else []

-- `while !remaining.is_empty()`
unfoldable pub parse_blocks : ℕ → Text → List HoppieMessage
parse_blocks zero remaining = []
parse_blocks (suc fuel) remaining = round (parse_blocks fuel) (skip_blanks remaining)

abbrev blocks_of : Text → List HoppieMessage
blocks_of content = parse_blocks (length content) content

abbrev parse_trimmed : Text → Option (List HoppieMessage)
parse_trimmed body =
    if body =t text "ok" || body =t text "ok {}"
    then some []
    else map_option (λ content. blocks_of (trim content)) (strip_prefix (text "ok") body)

unfoldable pub parse_poll_response : Text → Option (List HoppieMessage)
parse_poll_response body = parse_trimmed (trim body)
