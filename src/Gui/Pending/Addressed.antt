-- ===== src/Gui/Pending/Addressed.antt =====
-- crates/openlink-gui/src/components/atc_view.rs: whom the cards of the queue are about.
use mathlib.Core.List.{Memᴰ}
use mathlib.Core.Bool.{and-eq-true_iff}
use openlink.Prelude.{
  ℕ, ◌≡◌, refl, ap, if◌then◌else◌, inl, inr, Text, Bool, true, false, not, ◌&&◌, ◌||◌, Option, none,
  some, List, [], ◌∷◌, and_then, OnSome, All, Option-cases, Bool-cases, ◌=t◌, =t_iff, ◌==◌,
  is_some_and, arith,
}
use openlink.Gui.Received.{ReceivedMessage, is_standby_message, is_logical_ack, is_logon_line}
use openlink.Gui.Intents.{
  dialogue_callsign, find_dialogue_message_by_min, is_dialogue_message, is_recent_closure_message,
}
use openlink.Gui.Dialogues.{DialogueTrack, DialogueKey, no_dialogues, track_all, message_at}
use openlink.Gui.Pending.{
  PendingDialogue, action_source_of, callsign_of, card, card_of, add_card, cards_of, goes_before,
  insert_card, sort_cards, build_pending_dialogues,
}
use openlink.Gui.Dialogues.Owned.{Owned, message_at-About, track_all-Owned}

-- The message is one of the list, and about the aircraft.
abbrev About : List ReceivedMessage → Text → ReceivedMessage → Type 0
About messages cs m = Memᴰ m messages × (dialogue_callsign m ≡ some cs)

About-tail :
    (m : ReceivedMessage) (ms : List ReceivedMessage) (cs : Text) (o : Option ReceivedMessage)
    → OnSome (About ms cs) o
    → OnSome (About (m ∷ ms) cs) o
About-tail m ms cs none h = tt
About-tail m ms cs (some x) (mem, c) = (Memᴰ.tail mem, c)

callsign_matches : (o : Option Text) (cs : Text) → is_some_and (λ c. c =t cs) o ≡ true → o ≡ some cs
callsign_matches none cs h = cc
callsign_matches (some c) cs h = let e = (=t_iff c cs).0 h in rw e refl

last-conjunct : (a b c d : Bool) → (a && (b && (c && d))) ≡ true → d ≡ true
last-conjunct a b c d h =
    let (_, h1) = (and-eq-true_iff a _).0 h in
    let (_, h2) = (and-eq-true_iff b _).0 h1 in ((and-eq-true_iff c d).0 h2).1

is_dialogue_message-callsign :
    (min : ℕ) (cs : Text) (m : ReceivedMessage)
    → is_dialogue_message min cs m ≡ true
    → dialogue_callsign m ≡ some cs
is_dialogue_message-callsign min cs m h = callsign_matches (dialogue_callsign m) cs (
    last-conjunct (is_some_and (λ n. n == min) m.min) (not (is_logical_ack m))
      (not (is_logon_line m)) _ h)

find-About :
    (ms : List ReceivedMessage) (min : ℕ) (cs : Text)
    → OnSome (About ms cs) (find_dialogue_message_by_min ms min cs)
unfolding find_dialogue_message_by_min
find-About [] min cs = tt
find-About (m ∷ ms) min cs = elim (Bool-cases (is_dialogue_message min cs m)) [
  | inl p ↦ rw p (Memᴰ.head refl, is_dialogue_message-callsign min cs m p)
  | inr p ↦ rw p (About-tail m ms cs _ (find-About ms min cs))
]

-- A message of the list with this MIN, about the aircraft: what a response refers to.
abbrev pub Answers : List ReceivedMessage → Text → ℕ → Type 0
Answers messages cs min =
    (m : ReceivedMessage) × Memᴰ m messages × (m.min ≡ some min) × (dialogue_callsign m ≡ some cs)

abbrev pub Addressed : List ReceivedMessage → PendingDialogue → Type 0
Addressed messages c = OnSome (Answers messages c.aircraft_callsign) c.action_min

found-About :
    (messages : List ReceivedMessage) (cs : Text) (mrn : Option ℕ)
    → OnSome (About messages cs) (and_then (λ n. find_dialogue_message_by_min messages n cs) mrn)
found-About messages cs none = tt
found-About messages cs (some n) = find-About messages n cs

incoming-About :
    (messages : List ReceivedMessage) (cs : Text) (req : ReceivedMessage) (is_outgoing : Bool)
    → About messages cs req
    → OnSome (About messages cs) (if not is_outgoing then some req else none)
incoming-About messages cs req true h = tt
incoming-About messages cs req false h = h

source-About :
    (messages : List ReceivedMessage) (req : ReceivedMessage) (cs : Text) (recent : Bool)
    → About messages cs req
    → OnSome (About messages cs) (action_source_of messages req cs recent)
source-About messages req cs recent h = elim (Bool-cases (is_standby_message req || recent)) [
  | inl p ↦ rw p (found-About messages cs req.mrn)
  | inr p ↦ rw p (incoming-About messages cs req req.is_outgoing h)
]

callsign_of-same :
    (messages : List ReceivedMessage) (of_source : Bool) (cs : Text)
    (source : Option ReceivedMessage)
    → OnSome (About messages cs) source
    → callsign_of of_source cs source ≡ cs
callsign_of-same messages false cs source h = refl
callsign_of-same messages true cs none h = refl
callsign_of-same messages true cs (some m) (mem, c) = rw c refl

min-Answers :
    (messages : List ReceivedMessage) (cs : Text) (source : Option ReceivedMessage)
    → OnSome (About messages cs) source
    → OnSome (Answers messages cs) (and_then (λ (m : ReceivedMessage). m.min) source)
min-Answers messages cs none h = tt
min-Answers messages cs (some m) (mem, c) = elim (Option-cases m.min) [
  | inl e ↦ rw e tt
  | inr (n, e) ↦ rw e (m, mem, e, c)
]

card-Addressed :
    (now : ℕ) (messages : List ReceivedMessage) (req : ReceivedMessage) (cs : Text)
    → About messages cs req
    → Addressed messages (card now messages req cs)
unfolding card
card-Addressed now messages req cs h =
    let recent = is_recent_closure_message now req in
    let about = source-About messages req cs recent h in
    let same =
      callsign_of-same messages (is_standby_message req || recent) cs
        (action_source_of messages req cs recent) about in
    rw same (min-Answers messages cs (action_source_of messages req cs recent) about)

card_of-Addressed :
    (now : ℕ) (messages : List ReceivedMessage) (track : DialogueTrack) (req : ReceivedMessage)
    (cs : Text)
    → About messages cs req
    → OnSome (Addressed messages) (card_of now messages track req)
unfolding card_of
card_of-Addressed now messages track req cs (mem, c) =
    elim (Bool-cases (track.closed && not (is_recent_closure_message now req))) [
      | inl p ↦ rw p tt
      | inr p ↦ rw (p, c) (card-Addressed now messages req cs (mem, c))
    ]

entry-Addressed :
    (now : ℕ) (messages : List ReceivedMessage) (key : DialogueKey) (track : DialogueTrack)
    (o : Option ReceivedMessage)
    → OnSome (λ m. Memᴰ m messages) o
    → OnSome (λ m. dialogue_callsign m ≡ some key.callsign) o
    → OnSome (Addressed messages) (and_then (card_of now messages track) o)
entry-Addressed now messages key track none mem c = tt
entry-Addressed now messages key track (some req) mem c =
    card_of-Addressed now messages track req key.callsign (mem, c)

add_card-All :
    (P : PendingDialogue → Type 0) (o : Option PendingDialogue) (cards : List PendingDialogue)
    → OnSome P o
    → All P cards
    → All P (add_card o cards)
add_card-All P none cards h hs = hs
add_card-All P (some c) cards h hs = (h, hs)

cards_of-Addressed :
    (now : ℕ) (messages : List ReceivedMessage) (es : List (DialogueKey × DialogueTrack))
    → All (Owned messages) es
    → All (Addressed messages) (cards_of now messages es)
unfolding cards_of
cards_of-Addressed now messages [] h = tt
cards_of-Addressed now messages ((key, track) ∷ es) (h, hs) =
    add_card-All (Addressed messages) _ (cards_of now messages es)
      (entry-Addressed now messages key track (message_at track.last_index messages)
        (message_at-About track.last_index messages) h)
      (cards_of-Addressed now messages es hs)

insert_card-All :
    (P : PendingDialogue → Type 0) (c : PendingDialogue) (ds : List PendingDialogue)
    → P c
    → All P ds
    → All P (insert_card c ds)
insert_card-All P c [] h hs = (h, tt)
insert_card-All P c (d ∷ ds) h (g, hs) = elim (Bool-cases (goes_before d c)) [
  | inl p ↦ rw p (g, insert_card-All P c ds h hs)
  | inr p ↦ rw p (h, (g, hs))
]

sort_cards-All :
    (P : PendingDialogue → Type 0) (ds : List PendingDialogue) → All P ds → All P (sort_cards ds)
sort_cards-All P [] h = tt
sort_cards-All P (d ∷ ds) (h, hs) = insert_card-All P d (sort_cards ds) h (sort_cards-All P ds hs)

-- Whatever messages the controller has: where a card of the queue has a MIN to respond to, some message
-- of the list has that MIN, and it is one to or from the very aircraft that the card names, so no
-- response answers the message of another aircraft.
pub build_pending_dialogues-Addressed :
    (now : ℕ) (messages : List ReceivedMessage)
    → All (Addressed messages) (build_pending_dialogues now messages)
unfolding build_pending_dialogues
build_pending_dialogues-Addressed now messages = sort_cards-All (Addressed messages) _ (
    cards_of-Addressed now messages (track_all 0 messages no_dialogues).dialogues (
      track_all-Owned messages 0 messages no_dialogues
        (λ i. ap (λ k. message_at k messages) (omega arith)) tt))
