-- ===== src/Examples/Messages.antt =====
-- Messages handled over a bucket in memory, and the theorems on the handlers at them.
use openlink.Prelude.{
  to_uppercase, ◌≡◌, refl, ◌≢◌, text, true, false, none, some, [], ◌∷◌, map, ok, is_ok, ◌=t◌,
  =t_iff, arith, Bool-cases, inl, inr,
}
use openlink.Models.Endpoint.{server}
use openlink.Models.Argument.{CpdlcArgument}
use openlink.Models.Message.{
  CpdlcApplicationMessage, application, CpdlcEnvelope, cpdlc, AcarsEnvelope, acars,
  OpenLinkEnvelope,
}
use openlink.Server.Session.{CpdlcSession}
use openlink.Server.Session.Invariant.{IsValid}
use openlink.Server.Handler.{normalize, handle_application, handle_cpdlc}
use openlink.Server.Handler.Stored.{AllSound}
use openlink.Server.Handler.Safety.{handle_cpdlc-elsewhere}
use openlink.Server.Handler.Exchange.{
  managed, handle_application-refused, handle_application-passed,
}
use openlink.Models.Registry.{find_definition}
use openlink.Server.Handler.Normal.{normalize-argument_at, argument_at, shape}
use openlink.Examples.Memory.{Memory, memory, lookup}
use openlink.Examples.Sessions.{aircraft, station1}

abbrev pub connected_session : CpdlcSession
connected_session = record {
  aircraft = aircraft;
  active_connection = some (record { station = station1; logon = true; connection = true });
  inactive_connection = none;
  next_data_authority = none;
}

abbrev pub bucket : Memory CpdlcSession
bucket = record {
  entries = (text "abc", record { revision = 1; value = some connected_session }) ∷ [];
  last = 1;
}

-- A clearance, a free text and the end of the service.
abbrev pub clearance : CpdlcApplicationMessage
clearance = record {
  min = 5;
  mrn = none;
  elements =
      record { id = text "UM20"; args = CpdlcArgument.level 350 ∷ [] }
      ∷ record { id = text "UM169"; args = CpdlcArgument.free_text (text "due traffic") ∷ [] }
      ∷ record { id = text "UM161"; args = [] }
      ∷ [];
  timestamp = 0;
}

abbrev pub envelope_of : CpdlcApplicationMessage → CpdlcEnvelope
envelope_of msg = record {
  source = station1.callsign;
  destination = aircraft.callsign;
  message = application msg;
}

abbrev pub acars_of : CpdlcApplicationMessage → AcarsEnvelope
acars_of msg = record { aircraft = aircraft; message = cpdlc (envelope_of msg) }

abbrev pub open_link_of : CpdlcApplicationMessage → OpenLinkEnvelope
open_link_of msg = record {
  id = text "1";
  timestamp = 0;
  correlation_id = none;
  routing = record { source = server (text "demo"); destination = server (text "demo") };
  payload = acars (acars_of msg);
  token = [];
}

connected_session-IsValid : IsValid connected_session
connected_session-IsValid = ground arith

pub bucket-AllSound : AllSound memory bucket
unfolding lookup
bucket-AllSound k = elim (Bool-cases (text "abc" =t k)) [
  | inl p ↦ rw p (record { valid = connected_session-IsValid; keyed = (=t_iff (text "abc") k).0 p })
  | inr p ↦ rw p tt
]

abc_not_def : text "abc" ≢ text "def"
unfolding ◌=t◌
abc_not_def e = ground (arith, =t_iff (text "abc") (text "def"))

handle_cpdlc-elsewhere_example :
    memory.view
      (handle_cpdlc memory
        (envelope_of clearance)
        (acars_of clearance)
        (open_link_of clearance)
        bucket).0
      (text "def")
    ≡ memory.view bucket (text "def")
handle_cpdlc-elsewhere_example =
    handle_cpdlc-elsewhere memory (envelope_of clearance) (acars_of clearance)
      (open_link_of clearance) bucket (text "def") abc_not_def

-- MIN 64 is out of range.
abbrev pub bad_min : CpdlcApplicationMessage
bad_min = record clearance { min = 64 }

handle_application-refused_example :
    ((handle_application memory bad_min (envelope_of bad_min) (acars_of bad_min) bucket).0 ≡ bucket)
    × (is_ok (handle_application memory bad_min (envelope_of bad_min) (acars_of bad_min) bucket).1
        ≡ false)
unfolding lookup ◌=t◌
handle_application-refused_example =
    handle_application-refused memory bad_min (envelope_of bad_min) (acars_of bad_min) bucket refl

handle_application-passed_example :
    let t = managed station1.callsign (normalize clearance).elements connected_session in
    ((handle_application memory clearance (envelope_of clearance) (acars_of clearance) bucket).1
      ≡ ok (
        aircraft.callsign,
        some t,
        record (envelope_of clearance) { message = application (normalize clearance) },
      ))
    × (memory.view
          (handle_application memory clearance
            (envelope_of clearance)
            (acars_of clearance)
            bucket).0
          (text "abc")
        ≡ some t)
unfolding lookup ◌=t◌
handle_application-passed_example =
    handle_application-passed memory clearance (envelope_of clearance) (acars_of clearance) bucket
      connected_session (some (record { revision = 1; value = some connected_session })) refl refl
      refl refl

normalize-argument_at_example :
    (map shape (normalize clearance).elements ≡ map shape clearance.elements)
    × (argument_at 1 0 (normalize clearance).elements
        ≡ some (CpdlcArgument.free_text (text "DUE TRAFFIC")))
unfolding find_definition to_uppercase ◌=t◌
normalize-argument_at_example = normalize-argument_at clearance 1 0
