-- ===== src/Hoppie/Bridge/Loop.antt =====
-- crates/openlink-hoppie/src/bridge.rs: the loop of `run_bridge`, one event at a time.
use openlink.Prelude.{ℕ, Text, Bool, true, false, Option, none, some, List, [], ◌∷◌, if◌then◌else◌}
use openlink.Models.Message.{OpenLinkEnvelope}
use openlink.Hoppie.Poll.{HoppieMessage}
use openlink.Hoppie.Bridge.{
  Networks, Bridge, Ended, done, panicked, handle_hoppie_message, handle_openlink_message,
}

pub data BridgeMode : Type 0 where
  aircraft ground full : BridgeMode

-- `config.mode == BridgeMode::Ground || config.mode == BridgeMode::Full`, and the other test.
abbrev pub polls : BridgeMode → Bool
polls aircraft = false
polls ground = true
polls full = true

abbrev pub listens : BridgeMode → Bool
listens aircraft = true
listens ground = false
listens full = true

-- A tick of the timer: each callsign, in the order of the hash set, with the messages that its poll
-- returned, none where the poll failed. A message of the inbox: none where it is no envelope.
pub data Event : Type 0 where
  ticked : (now : ℕ) (polled : List (Text × Option (List HoppieMessage))) → Event
  arrived : (envelope : Option OpenLinkEnvelope) → Event

module _ {W : Type 0} (networks : Networks W) (hash : Text → Text → ℕ) (cid : Text)
    (bridge_callsigns : List Text) where
  -- An error is logged, and the loop goes on; a panic ends it.
  abbrev pub unless_panicked : Bridge W × Ended → (Bridge W → Bridge W × Ended) → Bridge W × Ended
  unless_panicked (b, panicked) next = (b, panicked)
  unless_panicked (b, _) next = next b

  unfoldable pub relay_messages : List HoppieMessage → Text → ℕ → Bridge W → Bridge W × Ended
  relay_messages [] polled_as now b = (b, done)
  relay_messages (msg ∷ msgs) polled_as now b =
      unless_panicked (handle_hoppie_message networks hash cid bridge_callsigns msg polled_as now b)
        (relay_messages msgs polled_as now)

  unfoldable pub relay_polled :
      List (Text × Option (List HoppieMessage)) → ℕ → Bridge W → Bridge W × Ended
  unfolding relay_messages
  relay_polled [] now b = (b, done)
  relay_polled ((callsign, none) ∷ rest) now b = relay_polled rest now b
  relay_polled ((callsign, some msgs) ∷ rest) now b =
      unless_panicked (relay_messages msgs callsign now b) (relay_polled rest now)

  unfoldable pub handle_event : BridgeMode → Event → Bridge W → Bridge W × Ended
  unfolding relay_polled
  handle_event mode (ticked now polled) b =
      let relayed = relay_polled polled now b in if polls mode then relayed else (b, done)
  handle_event mode (arrived none) b = (b, done)
  handle_event mode (arrived (some envelope)) b =
      let handled = handle_openlink_message networks hash cid bridge_callsigns envelope b in
      if listens mode then handled else (b, done)

  unfoldable pub run_bridge : BridgeMode → List Event → Bridge W → Bridge W × Ended
  unfolding handle_event
  run_bridge mode [] b = (b, done)
  run_bridge mode (e ∷ es) b = unless_panicked (handle_event mode e b) (run_bridge mode es)
