-- ===== src/Gui/Dialogues.antt =====
-- crates/openlink-gui/src/components/atc_view.rs: the first loop of `build_pending_dialogues`, which
-- follows the dialogues of all aircraft by their callsign and the MIN of their first message. An
-- association list stands for each hash map.
pub mod Owned
use openlink.Prelude.{
  ℕ, zero, suc, ◌≡◌, Text, Bool, true, false, not, ◌&&◌, ◌||◌, Option, none, some, List, [], ◌∷◌,
  ◌++◌, any, and_then, map_option, unwrap_or, ◌==◌, ◌=t◌, if◌then◌else◌,
}
use openlink.Gui.Received.{ReceivedMessage, is_closing_response_message}
use openlink.Gui.Intents.{is_dialogue_candidate, dialogue_callsign}

pub record DialogueTrack : Type 0 where
  pub mins : List ℕ
  pub last_index : ℕ
  pub closed : Bool

-- A callsign and a MIN.
pub record DialogueKey : Type 0 where
  pub callsign : Text
  pub min : ℕ

infix 50 ◌=d◌
abbrev pub ◌=d◌ : DialogueKey → DialogueKey → Bool
j =d k = j.callsign =t k.callsign && j.min == k.min

-- `get` and `insert` of the hash maps.
abbrev pub get_key : {E : Type 0} → DialogueKey → List (DialogueKey × E) → Option E
get_key k [] = none
get_key k ((j, e) ∷ m) = let rest = get_key k m in if j =d k then some e else rest

abbrev pub put_key :
    {E : Type 0} → DialogueKey → E → List (DialogueKey × E) → List (DialogueKey × E)
put_key k e [] = (k, e) ∷ []
put_key k e ((j, f) ∷ m) = let rest = put_key k e m in if j =d k then (k, e) ∷ m else (j, f) ∷ rest

pub record Tracking : Type 0 where
  pub min_to_root : List (DialogueKey × ℕ)
  pub dialogues : List (DialogueKey × DialogueTrack)

abbrev pub no_dialogues : Tracking
no_dialogues = record { min_to_root = []; dialogues = [] }

abbrev new_track : ℕ → DialogueTrack
new_track idx = record { mins = []; last_index = idx; closed = false }

abbrev pushed : ℕ → List ℕ → List ℕ
pushed min mins = if any (λ m. m == min) mins then mins else mins ++ (min ∷ [])

-- The root of a message: that of the message it refers to, where that is known.
abbrev root_of : Text → ℕ → Option ℕ → Tracking → ℕ
root_of cs min none t = min
root_of cs min (some parent) t =
    unwrap_or min (get_key (record { callsign = cs; min = parent }) t.min_to_root)

abbrev updated : ℕ → ℕ → ReceivedMessage → DialogueTrack → DialogueTrack
updated idx min msg track = record {
  mins = pushed min track.mins;
  last_index = idx;
  closed = is_closing_response_message msg || track.closed;
}

abbrev pub track_message : ℕ → ReceivedMessage → Text → ℕ → Tracking → Tracking
track_message idx msg cs min t =
    let root = root_of cs min msg.mrn t in
    let key : DialogueKey = record { callsign = cs; min = root } in
    record {
      min_to_root = put_key (record { callsign = cs; min = min }) root t.min_to_root;
      dialogues =
          put_key key (updated idx min msg (unwrap_or (new_track idx) (get_key key t.dialogues)))
            t.dialogues;
    }

abbrev pub track_of : ℕ → ReceivedMessage → Option Text → Option ℕ → Tracking → Tracking
track_of idx msg (some cs) (some min) t = track_message idx msg cs min t
track_of idx msg _ _ t = t

-- A round of the loop.
unfoldable pub track_round : ℕ → ReceivedMessage → Tracking → Tracking
track_round idx msg t =
    if not (is_dialogue_candidate msg)
    then t
    else track_of idx msg (dialogue_callsign msg) msg.min t

-- The loop, from the index `idx` on.
unfoldable pub track_all : ℕ → List ReceivedMessage → Tracking → Tracking
unfolding track_round
track_all idx [] t = t
track_all idx (msg ∷ msgs) t = track_all (suc idx) msgs (track_round idx msg t)

-- `messages[i]`
abbrev pub message_at : ℕ → List ReceivedMessage → Option ReceivedMessage
message_at i [] = none
message_at zero (m ∷ ms) = some m
message_at (suc i) (m ∷ ms) = message_at i ms
