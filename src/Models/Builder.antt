-- ===== src/Models/Builder.antt =====
-- crates/openlink-models/src/message_builder.rs: `CpdlcMessageBuilder`. A method that consumes the
-- builder is a function to the next one, the time of day is an argument where the code reads the
-- clock, and `none` is a builder that panics.
pub mod Envelope
pub mod Station
use openlink.Prelude.{
  ℕ, Text, text, Bool, true, false, Option, none, some, List, [], ◌∷◌, and_then, map_option,
  if◌then◌else◌,
}
use openlink.Models.Endpoint.{AcarsRoutingEndpoint}
use openlink.Models.Argument.{CpdlcArgument}
use openlink.Models.View.{CpdlcSessionView}
use openlink.Models.Message.{
  MessageElement, CpdlcApplicationMessage, CpdlcMetaMessage, CpdlcMessageType, application, meta,
  cpdlc, CpdlcEnvelope, AcarsEnvelope, OpenLinkMessage, acars,
}

pub record CpdlcMessageBuilder : Type 0 where
  pub aircraft_callsign : Text
  pub aircraft_address : Text
  pub source : Option Text
  pub destination : Option Text
  pub message_type : Option CpdlcMessageType

-- `MessageBuilder::cpdlc`
abbrev pub new : Text → Text → CpdlcMessageBuilder
new aircraft_callsign aircraft_address = record {
  aircraft_callsign = aircraft_callsign;
  aircraft_address = aircraft_address;
  source = none;
  destination = none;
  message_type = none;
}

abbrev pub from : Text → CpdlcMessageBuilder → CpdlcMessageBuilder
from callsign b = record b { source = some callsign }

abbrev pub to : Text → CpdlcMessageBuilder → CpdlcMessageBuilder
to callsign b = record b { destination = some callsign }

abbrev pub raw_message : CpdlcMessageType → CpdlcMessageBuilder → CpdlcMessageBuilder
raw_message msg b = record b { message_type = some msg }

abbrev with_meta : CpdlcMetaMessage → CpdlcMessageBuilder → CpdlcMessageBuilder
with_meta m b = record b { message_type = some (meta m) }

abbrev pub logon_request : Text → Text → Text → CpdlcMessageBuilder → CpdlcMessageBuilder
logon_request station origin destination =
    with_meta (CpdlcMetaMessage.logon_request station origin destination)

abbrev pub logon_response : Bool → CpdlcMessageBuilder → CpdlcMessageBuilder
logon_response accepted = with_meta (CpdlcMetaMessage.logon_response accepted)

abbrev pub connection_request : CpdlcMessageBuilder → CpdlcMessageBuilder
connection_request = with_meta CpdlcMetaMessage.connection_request

abbrev pub connection_response : Bool → CpdlcMessageBuilder → CpdlcMessageBuilder
connection_response accepted = with_meta (CpdlcMetaMessage.connection_response accepted)

abbrev pub logon_forward : Text → Text → Text → Text → CpdlcMessageBuilder → CpdlcMessageBuilder
logon_forward flight origin destination new_station =
    with_meta (CpdlcMetaMessage.logon_forward flight origin destination new_station)

abbrev pub session_update : CpdlcSessionView → CpdlcMessageBuilder → CpdlcMessageBuilder
session_update session = with_meta (CpdlcMetaMessage.session_update session)

abbrev pub application_message_with_min_and_mrn :
    List MessageElement → ℕ → Option ℕ → ℕ → CpdlcMessageBuilder → CpdlcMessageBuilder
application_message_with_min_and_mrn elements min mrn now b = record b {
  message_type =
      some (application (record { min = min; mrn = mrn; elements = elements; timestamp = now }));
}

abbrev pub application_message_with_mrn :
    List MessageElement → Option ℕ → ℕ → CpdlcMessageBuilder → CpdlcMessageBuilder
application_message_with_mrn elements mrn = application_message_with_min_and_mrn elements 0 mrn

abbrev pub application_message_with_min :
    List MessageElement → ℕ → ℕ → CpdlcMessageBuilder → CpdlcMessageBuilder
application_message_with_min elements min = application_message_with_min_and_mrn elements min none

abbrev pub application_message : List MessageElement → ℕ → CpdlcMessageBuilder → CpdlcMessageBuilder
application_message elements = application_message_with_min elements 0

-- `vec![MessageElement::new(id, args)]`
abbrev pub one_element : Text → List CpdlcArgument → List MessageElement
one_element id args = record { id = id; args = args } ∷ []

abbrev pub uplink : Text → List CpdlcArgument → ℕ → CpdlcMessageBuilder → CpdlcMessageBuilder
uplink id args = application_message (one_element id args)

abbrev pub downlink : Text → List CpdlcArgument → ℕ → CpdlcMessageBuilder → CpdlcMessageBuilder
downlink id args = application_message (one_element id args)

abbrev pub response_with_min :
    ℕ → ℕ → Text → List CpdlcArgument → ℕ → CpdlcMessageBuilder → CpdlcMessageBuilder
response_with_min min mrn id args =
    application_message_with_min_and_mrn (one_element id args) min (some mrn)

abbrev pub response : ℕ → Text → List CpdlcArgument → ℕ → CpdlcMessageBuilder → CpdlcMessageBuilder
response mrn id args = response_with_min 0 mrn id args

abbrev pub contact_request_with_min : Text → ℕ → ℕ → CpdlcMessageBuilder → CpdlcMessageBuilder
contact_request_with_min station = application_message_with_min (
    one_element (text "UM117")
      (CpdlcArgument.unit_name station ∷ CpdlcArgument.frequency (text "UNKNOWN") ∷ []))

abbrev pub contact_request : Text → ℕ → CpdlcMessageBuilder → CpdlcMessageBuilder
contact_request station = contact_request_with_min station 0

abbrev pub contact_response_with_min : Bool → ℕ → ℕ → CpdlcMessageBuilder → CpdlcMessageBuilder
contact_response_with_min accepted =
    application_message_with_min (one_element (if accepted then text "DM0" else text "DM1") [])

abbrev pub contact_response : Bool → ℕ → CpdlcMessageBuilder → CpdlcMessageBuilder
contact_response accepted = contact_response_with_min accepted 0

abbrev pub contact_complete_with_min : ℕ → ℕ → CpdlcMessageBuilder → CpdlcMessageBuilder
contact_complete_with_min = application_message_with_min (
    one_element (text "DM89")
      (CpdlcArgument.unit_name (text "UNKNOWN") ∷ CpdlcArgument.frequency (text "UNKNOWN") ∷ []))

abbrev pub contact_complete : ℕ → CpdlcMessageBuilder → CpdlcMessageBuilder
contact_complete = contact_complete_with_min 0

-- The address of the next data authority is not used.
abbrev pub next_data_authority_with_min :
    Text → Text → ℕ → ℕ → CpdlcMessageBuilder → CpdlcMessageBuilder
next_data_authority_with_min nda_callsign _ =
    application_message_with_min
      (one_element (text "UM160") (CpdlcArgument.facility_designation nda_callsign ∷ []))

abbrev pub next_data_authority : Text → Text → ℕ → CpdlcMessageBuilder → CpdlcMessageBuilder
next_data_authority nda_callsign nda_address =
    next_data_authority_with_min nda_callsign nda_address 0

abbrev pub end_service_with_min : ℕ → ℕ → CpdlcMessageBuilder → CpdlcMessageBuilder
end_service_with_min = application_message_with_min (one_element (text "UM161") [])

abbrev pub end_service : ℕ → CpdlcMessageBuilder → CpdlcMessageBuilder
end_service = end_service_with_min 0

abbrev pub climb_to : ℕ → ℕ → CpdlcMessageBuilder → CpdlcMessageBuilder
climb_to level = uplink (text "UM20") (CpdlcArgument.level level ∷ [])

abbrev pub request_climb_to : ℕ → ℕ → CpdlcMessageBuilder → CpdlcMessageBuilder
request_climb_to level = downlink (text "DM9") (CpdlcArgument.level level ∷ [])

abbrev pub request_descent_to : ℕ → ℕ → CpdlcMessageBuilder → CpdlcMessageBuilder
request_descent_to level = downlink (text "DM10") (CpdlcArgument.level level ∷ [])

abbrev pub request_level : ℕ → ℕ → CpdlcMessageBuilder → CpdlcMessageBuilder
request_level level = downlink (text "DM6") (CpdlcArgument.level level ∷ [])

abbrev built : CpdlcMessageBuilder → Text → Text → CpdlcMessageType → OpenLinkMessage
built b source destination message_type = acars (record {
  aircraft = record { callsign = b.aircraft_callsign; address = b.aircraft_address };
  message = cpdlc (record { source = source; destination = destination; message = message_type });
})

-- `build`: every `expect` is a `none`.
abbrev pub build : CpdlcMessageBuilder → Option OpenLinkMessage
build b =
    and_then (λ s. and_then (λ d. map_option (built b s d) b.message_type) b.destination) b.source
