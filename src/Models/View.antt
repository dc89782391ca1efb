-- ===== src/Models/View.antt =====
-- crates/openlink-models/src/cpdlc.rs: the session views that the server sends, and dialogues.
use openlink.Prelude.{ℕ, Text, text, Option}
use openlink.Models.Endpoint.{AcarsEndpointCallsign, AcarsEndpointAddress}
use openlink.Models.Attribute.{ResponseAttribute}

pub data CpdlcConnectionPhase : Type 0 where
  logon_pending logged_on connected terminated : CpdlcConnectionPhase

pub CpdlcConnectionPhase-discrete : Discrete CpdlcConnectionPhase
CpdlcConnectionPhase-discrete = hlevel

-- `impl Display for CpdlcConnectionPhase`
unfoldable pub display_phase : CpdlcConnectionPhase → Text
display_phase logon_pending = text "LOGON PENDING"
display_phase logged_on = text "LOGGED ON"
display_phase connected = text "CONNECTED"
display_phase terminated = text "TERMINATED"

pub record CpdlcConnectionView : Type 0 where
  pub peer : AcarsEndpointCallsign
  pub phase : CpdlcConnectionPhase

pub record CpdlcSessionView : Type 0 where
  pub aircraft : Option AcarsEndpointCallsign
  pub aircraft_address : Option AcarsEndpointAddress
  pub active_connection : Option CpdlcConnectionView
  pub inactive_connection : Option CpdlcConnectionView
  pub next_data_authority : Option AcarsEndpointCallsign

pub data DialogueState : Type 0 where
  open_dialogue closed_dialogue : DialogueState

pub record CpdlcDialogue : Type 0 where
  pub initiator_min : ℕ
  pub initiator : AcarsEndpointCallsign
  pub state : DialogueState
  pub response_attr : ResponseAttribute
