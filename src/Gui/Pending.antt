-- ===== src/Gui/Pending.antt =====
-- crates/openlink-gui/src/components/atc_view.rs: the second loop of `build_pending_dialogues`, which
-- makes the cards of the queue from the dialogues, and their order. `now` is the time of day.
pub mod Addressed
use openlink.Prelude.{
  ℕ, Text, text, Bool, true, false, not, ◌&&◌, ◌||◌, Option, none, some, List, [], ◌∷◌, and_then,
  map_option, unwrap_or, is_some, ltb, ◌==◌, if◌then◌else◌,
}
use openlink.Models.Attribute.{
  ResponseAttribute, y, CpdlcResponseIntent, wilco, unable, standby, same_intent,
}
use openlink.Gui.Received.{ReceivedMessage, is_closing_response_message, is_standby_message}
use openlink.Gui.Intents.{
  response_intents_for_message, is_recent_closure_message, closing_flag_intent,
  is_positive_closure_intent, dialogue_callsign, find_dialogue_message_by_min,
}
use openlink.Gui.Dialogues.{
  DialogueTrack, DialogueKey, Tracking, no_dialogues, track_all, message_at,
}

pub data DialogueFlag : Type 0 where
  no_flag : DialogueFlag
  standby_since : ℕ → DialogueFlag
  closed_by : (intent : CpdlcResponseIntent) (positive : Bool) → DialogueFlag
  received_at : ℕ → DialogueFlag

pub record PendingDialogue : Type 0 where
  pub aircraft_callsign : Text
  pub action_min : Option ℕ
  pub display_text : Text
  pub response_intents : List CpdlcResponseIntent
  pub is_y_response : Bool
  pub timestamp : ℕ
  pub card_class : Text
  pub flag : DialogueFlag
  pub priority : ℕ

abbrev is_y : Option ResponseAttribute → Bool
is_y (some y) = true
is_y _ = false

-- `retain(|i| !matches!(i, Standby))`
abbrev without_standby : List CpdlcResponseIntent → List CpdlcResponseIntent
without_standby [] = []
without_standby (i ∷ is_) =
    let rest = without_standby is_ in if same_intent i standby then rest else i ∷ rest

abbrev is_nil : {A : Type 0} → List A → Bool
is_nil [] = true
is_nil (x ∷ xs) = false

-- The response intents before the rule for a standby of the controller.
abbrev offered : Option ReceivedMessage → Bool → List CpdlcResponseIntent
offered source true = unable ∷ standby ∷ []
offered none false = []
offered (some m) false =
    let intents = response_intents_for_message m in
    if is_nil intents then wilco ∷ unable ∷ standby ∷ [] else intents

-- The original actionable message.
abbrev pub action_source_of :
    List ReceivedMessage → ReceivedMessage → Text → Bool → Option ReceivedMessage
action_source_of messages req cs recent_closure =
    let found = and_then (λ mrn. find_dialogue_message_by_min messages mrn cs) req.mrn in
    if is_standby_message req || recent_closure
    then found
    else if not req.is_outgoing
    then some req
    else none

abbrev unknown_or : Option Text → Text
unknown_or shown = unwrap_or (text "Unknown request") shown

abbrev pub flag_of : Bool → Option CpdlcResponseIntent → Bool → ReceivedMessage → DialogueFlag
flag_of standing_by closure recent_closure req =
    let otherwise =
      if req.is_outgoing && (not recent_closure && not (is_closing_response_message req))
      then received_at req.timestamp
      else no_flag in
    if standing_by then standby_since req.timestamp else elim closure [
      | some intent ↦ closed_by intent (is_positive_closure_intent intent)
      | none ↦ otherwise
    ]

-- The aircraft that a card is about.
abbrev pub callsign_of : Bool → Text → Option ReceivedMessage → Text
callsign_of of_source cs source =
    if of_source then unwrap_or cs (and_then dialogue_callsign source) else cs

-- The card of a dialogue of `cs` whose latest message is `req`.
unfoldable pub card : ℕ → List ReceivedMessage → ReceivedMessage → Text → PendingDialogue
card now messages req cs =
    let recent_closure = is_recent_closure_message now req in
    let source = action_source_of messages req cs recent_closure in
    let standing_by = is_standby_message req in
    let from_aircraft = standing_by && not req.is_outgoing in
    let from_atc = standing_by && req.is_outgoing in
    let closure = if recent_closure then closing_flag_intent req else none in
    let positive = unwrap_or false (map_option is_positive_closure_intent closure) in
    let action_min = and_then (λ (m : ReceivedMessage). m.min) source in
    let is_y_response = is_y (and_then (λ (m : ReceivedMessage). m.response_attr) source) in
    let intents =
      if from_atc
      then without_standby (offered source is_y_response)
      else offered source is_y_response in
    let needs_atc_response = not recent_closure && (is_some action_min && not (is_nil intents)) in
    let of_source = standing_by || recent_closure in
    record {
      aircraft_callsign = callsign_of of_source cs source;
      action_min = action_min;
      display_text =
          if of_source
          then unwrap_or (unknown_or req.display_text)
              (and_then (λ (m : ReceivedMessage). m.display_text) source)
          else unknown_or req.display_text;
      response_intents = if needs_atc_response then intents else [];
      is_y_response = is_y_response;
      timestamp = req.timestamp;
      card_class =
          if from_aircraft
          then text "pending-request-item standby-aircraft"
          else if from_atc
          then text "pending-request-item standby-atc"
          else if recent_closure && positive
          then text "pending-request-item closed-positive"
          else if recent_closure
          then text "pending-request-item closed-negative"
          else text "pending-request-item";
      flag = flag_of standing_by closure recent_closure req;
      priority =
          if recent_closure then 2 else if needs_atc_response || not req.is_outgoing then 0 else 1;
    }

-- A dialogue that was closed a while ago has no card.
abbrev pub card_of :
    ℕ → List ReceivedMessage → DialogueTrack → ReceivedMessage → Option PendingDialogue
unfolding card
card_of now messages track req =
    if track.closed && not (is_recent_closure_message now req)
    then none
    else some (card now messages req (unwrap_or [] (dialogue_callsign req)))

abbrev pub add_card : Option PendingDialogue → List PendingDialogue → List PendingDialogue
add_card none cards = cards
add_card (some c) cards = c ∷ cards

unfoldable pub cards_of :
    ℕ → List ReceivedMessage → List (DialogueKey × DialogueTrack) → List PendingDialogue
unfolding card_of
cards_of now messages [] = []
cards_of now messages ((key, track) ∷ rest) =
    add_card (and_then (card_of now messages track) (message_at track.last_index messages))
      (cards_of now messages rest)

-- The order of the queue: by priority, and then the latest first.
abbrev pub goes_before : PendingDialogue → PendingDialogue → Bool
goes_before a b =
    ltb a.priority b.priority || (a.priority == b.priority && ltb b.timestamp a.timestamp)

abbrev pub insert_card : PendingDialogue → List PendingDialogue → List PendingDialogue
insert_card c [] = c ∷ []
insert_card c (d ∷ ds) =
    let rest = insert_card c ds in if goes_before d c then d ∷ rest else c ∷ d ∷ ds

-- `sort_by`, which is stable.
abbrev pub sort_cards : List PendingDialogue → List PendingDialogue
sort_cards [] = []
sort_cards (c ∷ cs) = insert_card c (sort_cards cs)

-- The dialogues are visited in the order in which they were met; the hash map has no order.
unfoldable pub build_pending_dialogues : ℕ → List ReceivedMessage → List PendingDialogue
unfolding cards_of track_all
build_pending_dialogues now messages =
    sort_cards (cards_of now messages (track_all 0 messages no_dialogues).dialogues)
