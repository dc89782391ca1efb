-- ===== src/Server/Presence.antt =====
-- crates/openlink-server/src/server.rs: `OpenLinkServer` apart from `handle_acars_message`: session
-- updates, stations that come and go, and the loop of `run`. The client that sends to a station is a
-- parameter, as are the fresh identifiers and the time of day.
pub mod Loop
use openlink.Prelude.{
  ℕ, Text, text, Bool, true, false, not, Option, none, some, List, [], ◌∷◌, ◌++◌, ◌=t◌, Result, ok,
  err, Done, if◌then◌else◌,
}
use openlink.Models.Endpoint.{
  AcarsEndpointCallsign, AcarsRoutingEndpoint, NetworkId, NetworkAddress, StationStatus, online,
  offline, MetaMessage, station_status, OpenLinkRoutingEndpoint, server, address,
}
use openlink.Models.View.{CpdlcSessionView}
use openlink.Models.Message.{AcarsEnvelope, OpenLinkMessage, acars, meta_message, OpenLinkEnvelope}
use openlink.Models.Builder
use openlink.Models.Builder.Envelope
use openlink.Server.Session.{CpdlcSession, to_aircraft_view, to_station_view}
use openlink.Server.Kv.{Kv}
use openlink.Server.Registry.{
  StationEntry, CallsignIndexEntry, Stores, lookup_callsign, update_status, expire_stale_online,
}
use openlink.Server.Termination.{list_sessions_for_callsign, terminate_sessions_for_station}
use openlink.Server.Routing.{Routed, route_acars, station_callsigns}

-- The client of the network, in a state `W`.
pub record Client (W : Type 0) : Type 0 where
  pub send_to_station : NetworkAddress → OpenLinkEnvelope → W → W × Bool
  pub fresh_id : W → Text
  pub clock : W → ℕ

-- `OpenLinkServer`: its network, and the part of `PresenceConfig` that is read behind the timer.
pub record Settings : Type 0 where
  pub network_id : NetworkId
  pub lease_ttl : ℕ
  pub auto_end_service_on_station_offline : Bool

-- A message about a session, in an envelope from the server.
abbrev pub envelope_from_server :
    Settings → NetworkAddress → Text → Text → ℕ → Option OpenLinkMessage → Option OpenLinkEnvelope
envelope_from_server settings placeholder correlation_id id now none = none
envelope_from_server settings placeholder correlation_id id now (some message) =
    Envelope.build id now (
      Envelope.with_correlation_id correlation_id (
        Envelope.destination_address settings.network_id placeholder
          (Envelope.source_server settings.network_id (Envelope.new message))))

abbrev pub about :
    CpdlcSession
    → Text
    → Text
    → (Builder.CpdlcMessageBuilder → Builder.CpdlcMessageBuilder)
    → Option OpenLinkMessage
about session source destination payload = Builder.build (
    payload (
      Builder.to destination
        (Builder.from source (Builder.new session.aircraft.callsign session.aircraft.address))))

abbrev pub update_message : CpdlcSession → Text → CpdlcSessionView → Option OpenLinkMessage
update_message session callsign view =
    about session (text "SERVER") callsign (Builder.session_update view)

-- The view that a participant is sent.
abbrev pub view_for : AcarsEndpointCallsign → CpdlcSession → CpdlcSessionView
view_for callsign session =
    if session.aircraft.callsign =t callsign
    then to_aircraft_view session
    else to_station_view callsign session

module _ {S R I W : Type 0} (kv : Kv S CpdlcSession) (kv_registry : Kv R StationEntry)
    (kv_index : Kv I CallsignIndexEntry) (client : Client W) (settings : Settings) where
  -- The send of an envelope, whose failure is logged. Every envelope below has all its parts, so the
  -- case of a builder that panics does not arise.
  abbrev deliver : NetworkAddress → Option OpenLinkEnvelope → W → W
  deliver to none w = w
  deliver to (some envelope) w = (client.send_to_station to envelope w).0

  abbrev deliver_found : Result (Option StationEntry) → Option OpenLinkEnvelope → W → W
  deliver_found (ok (some entry)) envelope w = deliver entry.network_address envelope w
  deliver_found _ envelope w = w

  -- `if let Ok(Some(entry)) = lookup_callsign(callsign)`, and the send.
  abbrev notify : AcarsEndpointCallsign → Option OpenLinkEnvelope → Stores R I → W → W
  notify callsign envelope stores w =
      deliver_found (lookup_callsign kv_registry kv_index callsign stores) envelope w

  -- A session update for the aircraft or, with the placeholder "station", for a station.
  abbrev notify_update :
      AcarsEndpointCallsign → CpdlcSessionView → Text → CpdlcSession → Text → Stores R I → W → W
  notify_update callsign view placeholder session correlation_id stores w =
      notify callsign
        (envelope_from_server settings placeholder correlation_id (client.fresh_id w)
          (client.clock w) (update_message session callsign view))
        stores w

  unfoldable pub notify_stations :
      List AcarsEndpointCallsign → CpdlcSession → Text → Stores R I → W → W
  notify_stations [] session correlation_id stores w = w
  notify_stations (callsign ∷ callsigns) session correlation_id stores w =
      notify_stations callsigns session correlation_id stores (
        notify_update callsign (to_station_view callsign session) (text "station") session
          correlation_id stores w)

  unfoldable pub broadcast_session_update : CpdlcSession → OpenLinkEnvelope → Stores R I → W → W
  unfolding notify_stations
  broadcast_session_update session original stores w =
      notify_stations (station_callsigns session original) session original.id stores (
        notify_update session.aircraft.callsign (to_aircraft_view session) (text "aircraft") session
          original.id stores w)

  -- `send_to_station(…).await?`, and what follows it.
  abbrev if_sent : W × Bool → (W → W × Bool) → W × Bool
  if_sent (w, true) next = next w
  if_sent (w, false) next = (w, false)

  abbrev snapshot_sent : NetworkAddress → Option OpenLinkEnvelope → W → (W → W × Bool) → W × Bool
  snapshot_sent to none w next = (w, false)
  snapshot_sent to (some envelope) w next = if_sent (client.send_to_station to envelope w) next

  -- The loop over the sessions: whether every send succeeded.
  unfoldable pub send_snapshots :
      NetworkAddress → AcarsEndpointCallsign → Text → List CpdlcSession → W → W × Bool
  send_snapshots to callsign correlation_id [] w = (w, true)
  send_snapshots to callsign correlation_id (x ∷ xs) w =
      snapshot_sent to
        (envelope_from_server settings to correlation_id (client.fresh_id w) (client.clock w)
          (update_message x callsign (view_for callsign x)))
        w (send_snapshots to callsign correlation_id xs)

  abbrev listed_snapshots :
      NetworkAddress → AcarsEndpointCallsign → Text → Result (List CpdlcSession) → W → W × Bool
  unfolding send_snapshots
  listed_snapshots to callsign correlation_id (err e) w = (w, false)
  listed_snapshots to callsign correlation_id (ok xs) w =
      send_snapshots to callsign correlation_id xs w

  unfoldable pub sync_session_snapshots_for_callsign :
      NetworkAddress → AcarsEndpointCallsign → Text → S → W → W × Bool
  unfolding listed_snapshots
  sync_session_snapshots_for_callsign to callsign correlation_id s w =
      listed_snapshots to callsign correlation_id (list_sessions_for_callsign kv callsign s) w

  -- The END SERVICE of a station that went offline: its MIN is 0.
  abbrev end_service_envelope :
      AcarsEndpointCallsign → Text → CpdlcSession → W → Option OpenLinkEnvelope
  end_service_envelope station correlation_id session w =
      envelope_from_server settings (text "aircraft") correlation_id (client.fresh_id w)
        (client.clock w)
        (about session station session.aircraft.callsign (Builder.end_service (client.clock w)))

  abbrev broadcast_behind : CpdlcSession → Option OpenLinkEnvelope → Stores R I → W → W
  unfolding broadcast_session_update
  broadcast_behind session none stores w = w
  broadcast_behind session (some original) stores w =
      broadcast_session_update session original stores w

  -- The loop over the sessions that the station has left.
  unfoldable pub end_services :
      AcarsEndpointCallsign → Text → List CpdlcSession → Stores R I → W → W
  unfolding broadcast_behind
  end_services station correlation_id [] stores w = w
  end_services station correlation_id (x ∷ xs) stores w =
      let envelope = end_service_envelope station correlation_id x w in
      let told =
        if settings.auto_end_service_on_station_offline
        then notify x.aircraft.callsign envelope stores w
        else w in
      end_services station correlation_id xs stores (broadcast_behind x envelope stores told)

  abbrev ended :
      AcarsEndpointCallsign → Text → Stores R I → W → S × Result (List CpdlcSession) → S × W
  unfolding end_services
  ended station correlation_id stores w (s, err e) = (s, w)
  ended station correlation_id stores w (s, ok xs) =
      (s, end_services station correlation_id xs stores w)

  -- `handle_station_offline`, whose error its callers log.
  unfoldable pub handle_station_offline : AcarsEndpointCallsign → Text → Stores R I → S → W → S × W
  unfolding ended
  handle_station_offline station correlation_id stores s w =
      ended station correlation_id stores w (terminate_sessions_for_station kv station s)
