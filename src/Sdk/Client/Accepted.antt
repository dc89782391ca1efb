-- ===== src/Sdk/Client/Accepted.antt =====
-- crates/openlink-sdk/src/client.rs and crates/openlink-server/src/acars.rs: what the server makes of
-- the messages that the client's helpers build.
use openlink.Prelude.{
  ◌≡◌, ◌∙◌, true, false, Bool, some, List, [], ◌∷◌, map, arith, is_some, is_some_and, Text, ◌&&◌,
  leb, refl, ap, Bool-cases, inl, inr,
}
use openlink.Models.Message.{AcarsEnvelope, OpenLinkEnvelope}
use openlink.Server.Session.{CpdlcSession, ready_exchange}
use openlink.Server.Kv.{Kv}
use openlink.Server.Handler.Contract.{Sessions, Outcome, promises, may_connect}
use openlink.Server.Handler.Contract.Refine.{Works}
use openlink.Server.Handler.Contract.Runs.{handle_all, handle_all-promises}
use openlink.Sdk.Sequence.{MinSequences, next_min_for_session}
use openlink.Sdk.Client.{
  ClientCall, requests_logon, answers_logon, requests_connection, answers_connection, designates,
  requests_contact, ends_service, forwards_logon, station_sends, aircraft_sends, acknowledges,
  perform, cpdlc_logon_request, cpdlc_logon_response, cpdlc_connection_request,
  cpdlc_connection_response, cpdlc_next_data_authority, cpdlc_contact_request, cpdlc_end_service,
  cpdlc_logon_forward, cpdlc_station_application, cpdlc_aircraft_application, cpdlc_logical_ack,
}
use openlink.Sdk.Client.Establish.{built_by}

pub next_min-fits :
    (sender receiver : Text) (m : MinSequences)
    → (leb 1 (next_min_for_session sender receiver m).1
        && leb (next_min_for_session sender receiver m).1 63)
      ≡ true
unfolding next_min_for_session
next_min-fits sender receiver m = ground arith

-- The address of the aircraft that a call is about.
abbrev pub address_of : ClientCall → Text
address_of (requests_logon aircraft address target) = address
address_of (answers_logon atc aircraft address accepted) = address
address_of (requests_connection atc aircraft address) = address
address_of (answers_connection aircraft address atc accepted) = address
address_of (designates atc aircraft address nda now) = address
address_of (requests_contact atc aircraft address next_station now) = address
address_of (ends_service atc aircraft address now) = address
address_of (forwards_logon atc aircraft address new_station) = address
address_of (station_sends station aircraft address elements mrn now) = address
address_of (aircraft_sends aircraft address station elements mrn now) = address
address_of (acknowledges sender receiver aircraft address mrn now) = address

-- In the session: an acceptance of a connection needs the logon with the station, if the session has
-- a connection with it.
abbrev pub passes : CpdlcSession → ClientCall → Bool
passes x (answers_connection aircraft address atc true) = may_connect atc x
passes x _ = true

perform-promises :
    (call : ClientCall) (m : MinSequences) (sessions : Sessions) (x : CpdlcSession)
    → sessions (address_of call) ≡ some x
    → is_some_and ready_exchange x.active_connection ≡ true
    → map is_some (promises (built_by (call ∷ []) m) sessions).1 ≡ passes x call ∷ []
unfolding promises built_by perform cpdlc_logon_request cpdlc_logon_response
    cpdlc_connection_request cpdlc_connection_response cpdlc_next_data_authority
    cpdlc_contact_request cpdlc_end_service cpdlc_logon_forward cpdlc_station_application
    cpdlc_aircraft_application cpdlc_logical_ack
perform-promises (requests_logon aircraft address target) m sessions x e h = refl
perform-promises (answers_logon atc aircraft address true) m sessions x e h = refl
perform-promises (answers_logon atc aircraft address false) m sessions x e h = refl
perform-promises (requests_connection atc aircraft address) m sessions x e h = refl
perform-promises (answers_connection aircraft address atc true) m sessions x e h =
    elim (Bool-cases (may_connect atc x)) [ inl p ↦ rw (e, p) refl | inr p ↦ rw (e, p) refl ]
perform-promises (answers_connection aircraft address atc false) m sessions x e h = refl
perform-promises (designates atc aircraft address nda now) m sessions x e h =
    rw (e, h, next_min-fits atc aircraft m) refl
perform-promises (requests_contact atc aircraft address next_station now) m sessions x e h =
    rw (e, h, next_min-fits atc aircraft m) refl
perform-promises (ends_service atc aircraft address now) m sessions x e h =
    rw (e, h, next_min-fits atc aircraft m) refl
perform-promises (forwards_logon atc aircraft address new_station) m sessions x e h = refl
perform-promises (station_sends station aircraft address elements mrn now) m sessions x e h =
    rw (e, h, next_min-fits station aircraft m) refl
perform-promises (aircraft_sends aircraft address station elements mrn now) m sessions x e h =
    rw (e, h, next_min-fits aircraft station m) refl
perform-promises (acknowledges sender receiver aircraft address mrn now) m sessions x e h =
    rw (e, h, next_min-fits sender receiver m) refl

wrapped :
    (wrap : AcarsEnvelope → OpenLinkEnvelope) (messages : List AcarsEnvelope)
    → map
        (λ (m : AcarsEnvelope × OpenLinkEnvelope). m.0)
        (map (λ (a : AcarsEnvelope). (a, wrap a)) messages)
      ≡ messages
wrapped wrap [] = refl
wrapped wrap (a ∷ messages) = ap (λ (rest : List AcarsEnvelope). a ∷ rest) (wrapped wrap messages)

module _ {S : Type 0} (kv : Kv S CpdlcSession) where
  -- Over a store that works, and for an aircraft whose stored session has a ready active connection,
  -- whatever the client's MIN sequences are: each helper builds a message without a panic, and the
  -- server handles it without an error, but for the acceptance of a connection with a station that
  -- the session has a connection with, not logged on, which it refuses.
  pub perform-handle_all :
      (works : Works kv) (wrap : AcarsEnvelope → OpenLinkEnvelope) (call : ClientCall)
      (m : MinSequences) (s : S) (x : CpdlcSession)
      → kv.view s (address_of call) ≡ some x
      → is_some_and ready_exchange x.active_connection ≡ true
      → map is_some
          (handle_all kv (map (λ (a : AcarsEnvelope). (a, wrap a)) (built_by (call ∷ []) m)) s).1
        ≡ passes x call ∷ []
  perform-handle_all works wrap call m s x e h =
      let messages = built_by (call ∷ []) m in
      let (_, o) =
        handle_all-promises kv works (map (λ (a : AcarsEnvelope). (a, wrap a)) messages) s in
      let same =
        ap (λ (a : List AcarsEnvelope). map is_some (promises a (kv.view s)).1)
          (wrapped wrap messages) in
      ap (λ (out : List Outcome). map is_some out) o
      ∙ same
      ∙ perform-promises call m (kv.view s) x e h
