-- ===== src/Sdk/Client.antt =====
-- crates/openlink-sdk/src/client.rs: the high-level CPDLC helpers of `OpenLinkClient`. A helper
-- returns the MIN sequences that it leaves beside the message; `now` is the time of day, and `none`
-- is a builder that panics.
pub mod Accepted
pub mod Establish
pub mod Acknowledged
use openlink.Prelude.{ℕ, Text, text, Bool, Option, none, some, List, [], ◌∷◌, ◌=t◌, if◌then◌else◌}
use openlink.Models.Message.{MessageElement, OpenLinkMessage}
use openlink.Models.Builder
use openlink.Models.Builder.{CpdlcMessageBuilder}
use openlink.Sdk.Runtime.{logical_ack_downlink_id, logical_ack_uplink_id}
use openlink.Sdk.Sequence.{MinSequences, next_min_for_session, reset_min_for_session}

abbrev pub Built : Type 0
Built = MinSequences × Option OpenLinkMessage

-- `MessageBuilder::cpdlc(…).from(…).to(…)`, a payload, and `build()`.
abbrev pub between :
    Text → Text → Text → Text → (CpdlcMessageBuilder → CpdlcMessageBuilder) → Option OpenLinkMessage
between aircraft address source destination payload =
    Builder.build
      (payload (Builder.to destination (Builder.from source (Builder.new aircraft address))))

unfoldable pub cpdlc_logon_request : Text → Text → Text → MinSequences → Built
cpdlc_logon_request aircraft address target m = (
  reset_min_for_session aircraft target m,
  between aircraft address aircraft target
      (Builder.logon_request target (text "ZZZZ") (text "ZZZZ")),
)

unfoldable pub cpdlc_logon_response : Text → Text → Text → Bool → MinSequences → Built
cpdlc_logon_response atc aircraft address accepted m = (
  if accepted then reset_min_for_session atc aircraft m else m,
  between aircraft address atc aircraft (Builder.logon_response accepted),
)

unfoldable pub cpdlc_connection_request : Text → Text → Text → MinSequences → Built
cpdlc_connection_request atc aircraft address m = (
  reset_min_for_session atc aircraft m,
  between aircraft address atc aircraft Builder.connection_request,
)

unfoldable pub cpdlc_connection_response : Text → Text → Text → Bool → MinSequences → Built
cpdlc_connection_response aircraft address atc accepted m =
    (m, between aircraft address aircraft atc (Builder.connection_response accepted))

unfoldable pub cpdlc_next_data_authority : Text → Text → Text → Text → ℕ → MinSequences → Built
cpdlc_next_data_authority atc aircraft address nda now m =
    let (m', min) = next_min_for_session atc aircraft m in
    (
      m',
      between aircraft address atc aircraft (Builder.next_data_authority_with_min nda [] min now),
    )

unfoldable pub cpdlc_contact_request : Text → Text → Text → Text → ℕ → MinSequences → Built
cpdlc_contact_request atc aircraft address next_station now m =
    let (m', min) = next_min_for_session atc aircraft m in
    (
      m',
      between aircraft address atc aircraft (Builder.contact_request_with_min next_station min now),
    )

unfoldable pub cpdlc_end_service : Text → Text → Text → ℕ → MinSequences → Built
cpdlc_end_service atc aircraft address now m =
    let (m', min) = next_min_for_session atc aircraft m in
    (m', between aircraft address atc aircraft (Builder.end_service_with_min min now))

unfoldable pub cpdlc_logon_forward : Text → Text → Text → Text → MinSequences → Built
cpdlc_logon_forward atc aircraft address new_station m = (
  m,
  between aircraft address atc new_station
      (Builder.logon_forward aircraft (text "ZZZZ") (text "ZZZZ") new_station),
)

unfoldable pub cpdlc_station_application :
    Text → Text → Text → List MessageElement → Option ℕ → ℕ → MinSequences → Built
cpdlc_station_application station aircraft address elements mrn now m =
    let (m', min) = next_min_for_session station aircraft m in
    (
      m',
      between aircraft address station aircraft
          (Builder.application_message_with_min_and_mrn elements min mrn now),
    )

unfoldable pub cpdlc_aircraft_application :
    Text → Text → Text → List MessageElement → Option ℕ → ℕ → MinSequences → Built
cpdlc_aircraft_application aircraft address station elements mrn now m =
    let (m', min) = next_min_for_session aircraft station m in
    (
      m',
      between aircraft address aircraft station
          (Builder.application_message_with_min_and_mrn elements min mrn now),
    )

unfoldable pub cpdlc_logical_ack : Text → Text → Text → Text → ℕ → ℕ → MinSequences → Built
cpdlc_logical_ack sender receiver aircraft address mrn now m =
    let ack_id = if sender =t aircraft then logical_ack_downlink_id else logical_ack_uplink_id in
    let (m', min) = next_min_for_session sender receiver m in
    (
      m',
      between aircraft address sender receiver (
          Builder.application_message_with_min_and_mrn (Builder.one_element ack_id []) min
            (some mrn) now),
    )

-- The helpers as data, each with its arguments.
pub data ClientCall : Type 0 where
  requests_logon : (aircraft address target : Text) → ClientCall
  answers_logon : (atc aircraft address : Text) (accepted : Bool) → ClientCall
  requests_connection : (atc aircraft address : Text) → ClientCall
  answers_connection : (aircraft address atc : Text) (accepted : Bool) → ClientCall
  designates : (atc aircraft address nda : Text) (now : ℕ) → ClientCall
  requests_contact : (atc aircraft address next_station : Text) (now : ℕ) → ClientCall
  ends_service : (atc aircraft address : Text) (now : ℕ) → ClientCall
  forwards_logon : (atc aircraft address new_station : Text) → ClientCall
  station_sends :
      (station aircraft address : Text) (elements : List MessageElement) (mrn : Option ℕ) (now : ℕ)
      → ClientCall
  aircraft_sends :
      (aircraft address station : Text) (elements : List MessageElement) (mrn : Option ℕ) (now : ℕ)
      → ClientCall
  acknowledges : (sender receiver aircraft address : Text) (mrn now : ℕ) → ClientCall

unfoldable pub perform : ClientCall → MinSequences → Built
perform (requests_logon aircraft address target) = cpdlc_logon_request aircraft address target
perform (answers_logon atc aircraft address accepted) =
    cpdlc_logon_response atc aircraft address accepted
perform (requests_connection atc aircraft address) = cpdlc_connection_request atc aircraft address
perform (answers_connection aircraft address atc accepted) =
    cpdlc_connection_response aircraft address atc accepted
perform (designates atc aircraft address nda now) =
    cpdlc_next_data_authority atc aircraft address nda now
perform (requests_contact atc aircraft address next_station now) =
    cpdlc_contact_request atc aircraft address next_station now
perform (ends_service atc aircraft address now) = cpdlc_end_service atc aircraft address now
perform (forwards_logon atc aircraft address new_station) =
    cpdlc_logon_forward atc aircraft address new_station
perform (station_sends station aircraft address elements mrn now) =
    cpdlc_station_application station aircraft address elements mrn now
perform (aircraft_sends aircraft address station elements mrn now) =
    cpdlc_aircraft_application aircraft address station elements mrn now
perform (acknowledges sender receiver aircraft address mrn now) =
    cpdlc_logical_ack sender receiver aircraft address mrn now
