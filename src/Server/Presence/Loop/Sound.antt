-- ===== src/Server/Presence/Loop/Sound.antt =====
-- crates/openlink-server/src/server.rs: the stored sessions through a run of the server.
use openlink.Prelude.{
  inl, inr, Text, Option, none, some, List, [], ◌∷◌, Result, ok, err, Done, OnSome, OnOk, OnOk-bind,
  Bool-cases,
}
use openlink.Models.Endpoint.{
  AcarsEndpointCallsign, AcarsRoutingEndpoint, NetworkAddress, StationStatus, online, offline,
  MetaMessage, station_status, OpenLinkRoutingEndpoint, server, address,
}
use openlink.Models.Message.{OpenLinkMessage, acars, meta_message, OpenLinkEnvelope}
use openlink.Server.Session
use openlink.Server.Session.{CpdlcSession}
use openlink.Server.Kv.{Kv}
use openlink.Server.Handler.{proceed}
use openlink.Server.Handler.Stored.{
  IsSound, IsSoundUpdate, AllSound, call-OnOk, termination_request-Keeps, get_and_update-AllSound,
}
use openlink.Server.Handler.Safety.{handle_cpdlc-AllSound}
use openlink.Server.Registry.{StationEntry, CallsignIndexEntry, Stores, expire_stale_online}
use openlink.Server.Routing.{handle_acars_message, route_acars, cpdlc_of}
use openlink.Server.Termination.{
  serves, terminate_update, list_sessions_for_callsign, after_update, terminate_all,
  terminate_listed, terminate_sessions_for_station,
}
use openlink.Server.Presence.{Client, Settings, ended, handle_station_offline}
use openlink.Server.Presence.Loop.{
  ServerState, Event, arrived, ticked, went_offline, status_updated, status_from,
  handle_meta_message, handle_payload, expire_all, swept, handle_event, run,
}

terminate_update_sound :
    (k : Text) (station : AcarsEndpointCallsign) (found : Option CpdlcSession)
    → OnSome (IsSound k) found
    → OnOk (IsSoundUpdate k) (terminate_update station found)
unfolding terminate_update
terminate_update_sound k station none h = tt
terminate_update_sound k station (some x) h = elim (Bool-cases (serves station x)) [
  | inl p ↦ rw p (
      OnOk-bind (IsSoundUpdate k) (proceed (Session.termination_request station x))
        (λ t. ok (some t, tt))
        (call-OnOk k (Session.termination_request station) (termination_request-Keeps station) x h)
        (λ t q. q))
  | inr p ↦ rw p h
]

module _ {S : Type 0} (kv : Kv S CpdlcSession) (station : AcarsEndpointCallsign) where
  after_update_sound :
      (next : S → S × Result (List CpdlcSession)) (p : S × Result (Option CpdlcSession × Unit {0}))
      → AllSound kv p.0
      → ((s : S) → AllSound kv s → AllSound kv (next s).0)
      → AllSound kv (after_update kv station next p).0
  after_update_sound next (s, err e) h more = h
  after_update_sound next (s, ok u) h more = more s h

  terminate_all_sound :
      (xs : List CpdlcSession) (s : S)
      → AllSound kv s
      → AllSound kv (terminate_all kv station xs s).0
  unfolding terminate_all
  terminate_all_sound [] s h = h
  terminate_all_sound (x ∷ xs) s h =
      after_update_sound (terminate_all kv station xs) _
        (get_and_update-AllSound kv x.aircraft (terminate_update station) s
          (terminate_update_sound x.aircraft.address station) h)
        (terminate_all_sound xs)

  terminate_listed_sound :
      (listed : Result (List CpdlcSession)) (s : S)
      → AllSound kv s
      → AllSound kv (terminate_listed kv station listed s).0
  unfolding terminate_listed
  terminate_listed_sound (err e) s h = h
  terminate_listed_sound (ok xs) s h = terminate_all_sound xs s h

module _ {S R I W : Type 0} (kv : Kv S CpdlcSession) (kv_registry : Kv R StationEntry)
    (kv_index : Kv I CallsignIndexEntry) (client : Client W) (settings : Settings) where
  ended_sound :
      (station : AcarsEndpointCallsign) (id : Text) (stores : Stores R I) (w : W)
      (p : S × Result (List CpdlcSession))
      → AllSound kv p.0
      → AllSound kv (ended kv kv_registry kv_index client settings station id stores w p).0
  unfolding ended
  ended_sound station id stores w (s, err e) h = h
  ended_sound station id stores w (s, ok xs) h = h

  abbrev SoundState : ServerState S R I W → Type 0
  SoundState x = AllSound kv x.sessions

  went_offline_sound :
      (endpoint : AcarsRoutingEndpoint) (id : Text) (x : ServerState S R I W)
      → SoundState x
      → SoundState (went_offline kv kv_registry kv_index client settings endpoint id x)
  unfolding handle_station_offline terminate_sessions_for_station
  went_offline_sound endpoint id x h = ended_sound endpoint.callsign id x.stores x.network _ (
      terminate_listed_sound kv endpoint.callsign
        (list_sessions_for_callsign kv endpoint.callsign x.sessions) x.sessions h)

  status_updated_sound :
      (status : StationStatus) (to : NetworkAddress) (endpoint : AcarsRoutingEndpoint) (id : Text)
      (p : Stores R I × Done) (x : ServerState S R I W)
      → SoundState x
      → SoundState
          (status_updated kv kv_registry kv_index client settings status to endpoint id p x)
  status_updated_sound status to endpoint id (stores, err e) x h = h
  status_updated_sound online to endpoint id (stores, ok _) x h = h
  status_updated_sound offline to endpoint id (stores, ok _) x h =
      went_offline_sound endpoint id (record x { stores = stores }) h

  status_from_sound :
      (source : OpenLinkRoutingEndpoint) (m : MetaMessage) (id : Text) (x : ServerState S R I W)
      → SoundState x
      → SoundState (status_from kv kv_registry kv_index client settings source m id x)
  status_from_sound (server _) m id x h = h
  status_from_sound (address _ to) (station_status station_id status endpoint) id x h =
      status_updated_sound status to endpoint id _ x h

  payload_sound :
      (p : OpenLinkMessage) (envelope : OpenLinkEnvelope) (x : ServerState S R I W)
      → SoundState x
      → SoundState (handle_payload kv kv_registry kv_index client settings p envelope x)
  unfolding handle_payload handle_meta_message route_acars handle_acars_message
  payload_sound (meta_message m) envelope x h =
      status_from_sound envelope.routing.source m envelope.id x h
  payload_sound (acars a) envelope x h =
      handle_cpdlc-AllSound kv (cpdlc_of a.message) a envelope x.sessions h

  expire_all_sound :
      (es : List StationEntry) (x : ServerState S R I W)
      → SoundState x
      → SoundState (expire_all kv kv_registry kv_index client settings es x)
  unfolding expire_all
  expire_all_sound [] x h = h
  expire_all_sound (e ∷ es) x h = expire_all_sound es _ (went_offline_sound e.acars_endpoint _ x h)

  swept_sound :
      (p : Stores R I × Result (List StationEntry)) (x : ServerState S R I W)
      → SoundState x
      → SoundState (swept kv kv_registry kv_index client settings p x)
  unfolding swept
  swept_sound (stores, err e) x h = h
  swept_sound (stores, ok expired) x h = expire_all_sound expired (record x { stores = stores }) h

  -- Whatever envelopes reach the server, whichever of its timers tick between them, in whatever order,
  -- and whichever calls of the stores and the network fail: if every stored session is valid and
  -- stands under the address of its aircraft at the start, so it is at the end.
  pub run-AllSound :
      (events : List Event) (x : ServerState S R I W)
      → AllSound kv x.sessions
      → AllSound kv (run kv kv_registry kv_index client settings events x).sessions
  unfolding run handle_event
  run-AllSound [] x h = h
  run-AllSound (arrived envelope ∷ es) x h =
      run-AllSound es _ (payload_sound envelope.payload envelope x h)
  run-AllSound (ticked ∷ es) x h =
      let expired =
        expire_stale_online kv_registry kv_index settings.lease_ttl (client.clock x.network)
          x.stores in
      run-AllSound es (swept kv kv_registry kv_index client settings expired x)
        (swept_sound expired x h)
