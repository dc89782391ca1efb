-- ===== src/Gui/Dcdu.antt =====
-- crates/openlink-gui/src/components/a320_view.rs: the text of a message on the display of the
-- aircraft, and the keys of the responses. A character is a byte.
pub mod Lines
use openlink.Prelude.{
  ℕ, zero, suc, ◌+◌, ◌-◌, Text, text, Bool, true, false, Option, none, some, List, [], ◌∷◌, ◌++◌,
  length, ltb, leb, is_empty, is_space, trim_end, to_uppercase, ◌||◌, if◌then◌else◌, ◌=t◌,
}
use openlink.Models.Attribute.{
  CpdlcResponseIntent, wilco, unable, standby, roger, affirm, negative, has_intent,
}

pub record ResponseGrid : Type 0 where
  pub top_left : Option CpdlcResponseIntent
  pub top_right : Option CpdlcResponseIntent
  pub bot_left : Option CpdlcResponseIntent
  pub bot_right : Option CpdlcResponseIntent

unfoldable pub dcdu_label : Text → Text
dcdu_label label = if label =t text "STANDBY" then text "STBY" else label

-- The closure `find`.
abbrev pub find_intent : CpdlcResponseIntent → List CpdlcResponseIntent → Option CpdlcResponseIntent
find_intent needle intents = if has_intent needle intents then some needle else none

-- `intents.get(slot)`: what the loop over the first four intents puts in a slot.
abbrev pub intent_at : ℕ → List CpdlcResponseIntent → Option CpdlcResponseIntent
intent_at slot [] = none
intent_at zero (i ∷ is_) = some i
intent_at (suc slot) (i ∷ is_) = intent_at slot is_

unfoldable pub arrange_responses : List CpdlcResponseIntent → ResponseGrid
arrange_responses intents =
    let find = λ (i : CpdlcResponseIntent). find_intent i intents in
    if has_intent wilco intents
    then record {
      top_left = find unable;
      top_right = find standby;
      bot_left = none;
      bot_right = find wilco;
    }
    else if has_intent affirm intents
    then record {
      top_left = find negative;
      top_right = find standby;
      bot_left = none;
      bot_right = find affirm;
    }
    else if has_intent roger intents
    then record {
      top_left = none;
      top_right = find standby;
      bot_left = none;
      bot_right = find roger;
    }
    else record {
      top_left = intent_at 2 intents;
      top_right = intent_at 1 intents;
      bot_left = intent_at 3 intents;
      bot_right = intent_at 0 intents;
    }

-- The text up to the next white space, in front of the words that follow.
abbrev joined : ℕ → List Text → List Text
joined c [] = (c ∷ []) ∷ []
joined c (w ∷ ws) = (c ∷ w) ∷ ws

abbrev nonempty_words : List Text → List Text
nonempty_words [] = []
nonempty_words (w ∷ ws) = let rest = nonempty_words ws in if is_empty w then rest else w ∷ rest

abbrev pieces : Text → List Text
pieces [] = []
pieces (c ∷ s) = let rest = pieces s in if is_space c then [] ∷ rest else joined c rest

-- `split_whitespace`
unfoldable pub split_whitespace : Text → List Text
split_whitespace s = nonempty_words (pieces s)

-- The first `n` characters, and those that follow.
abbrev pub first_chars : ℕ → Text → Text
first_chars zero s = []
first_chars (suc n) [] = []
first_chars (suc n) (c ∷ s) = c ∷ first_chars n s

abbrev pub chars_after : ℕ → Text → Text
chars_after zero s = s
chars_after (suc n) [] = []
chars_after (suc n) (c ∷ s) = chars_after n s

-- What the loop over the words keeps: the lines, the one being filled, and whether the page is full.
pub record Page : Type 0 where
  pub lines : List Text
  pub current : Text
  pub returned : Bool

abbrev pub flushed : List Text → Text → List Text
flushed lines current = if is_empty current then lines else lines ++ (trim_end current ∷ [])

-- The rest of a round, with a word of at most 24 characters.
unfoldable pub place : Text → List Text → Text → Page
place word lines current =
    let candidate_len =
      if is_empty current then length word else length current + (1 + length word) in
    if ltb 24 candidate_len
    then record { lines = lines ++ (trim_end current ∷ []); current = word; returned = false }
    else record {
      lines = lines;
      current = if is_empty current then word else current ++ (32 ∷ word);
      returned = false;
    }

-- A round: the loop that cuts a long word, on fuel, of which the length of the word is enough.
unfoldable pub cut : ℕ → Text → List Text → Text → Page
unfolding place
cut zero word lines current = place word lines current
cut (suc fuel) word lines current =
    let filled = flushed lines current ++ (first_chars 24 word ∷ []) in
    let rest = cut fuel (chars_after 24 word) filled [] in
    if ltb 24 (length word)
    then if leb 4 (length filled)
      then record { lines = filled; current = []; returned = true }
      else rest
    else place word lines current

-- The loop over the words.
unfoldable pub wrap_words : List Text → Page → Page
unfolding cut
wrap_words [] p = p
wrap_words (w ∷ ws) p =
    let word = to_uppercase w in
    let next = cut (length word) word p.lines p.current in
    let rest = wrap_words ws next in
    if next.returned || leb 4 (length next.lines) then next else rest

-- `format!("{:<24}", line)`
abbrev pub spaces : ℕ → Text
spaces zero = []
spaces (suc n) = 32 ∷ spaces n

abbrev pub padded : Text → Text
padded line = line ++ spaces (24 - length line)

-- `lines[i]`, or an empty line where there is none.
abbrev pub line_at : ℕ → List Text → Text
line_at i [] = []
line_at zero (l ∷ ls) = l
line_at (suc i) (l ∷ ls) = line_at i ls

abbrev pub page_of : List Text → List Text
page_of lines =
    padded (line_at 0 lines)
    ∷ padded (line_at 1 lines)
    ∷ padded (line_at 2 lines)
    ∷ padded (line_at 3 lines)
    ∷ []

abbrev pub finished : Page → List Text
finished p =
    if p.returned
    then p.lines
    else if ltb (length p.lines) 4
    then flushed p.lines p.current
    else p.lines

unfoldable pub dcdu_wrap_24x4 : Text → List Text
unfolding wrap_words split_whitespace
dcdu_wrap_24x4 s = page_of (
    finished
      (wrap_words (split_whitespace s) (record { lines = []; current = []; returned = false })))
