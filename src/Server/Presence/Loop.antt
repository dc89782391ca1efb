-- ===== src/Server/Presence/Loop.antt =====
-- crates/openlink-server/src/server.rs: `handle_meta_message`, and the loop of `run`, one event at a
-- time. The sweep reads the clock once.
pub mod Sound
use openlink.Prelude.{ℕ, Text, text, Option, none, some, List, [], ◌∷◌, ◌++◌, Result, ok, err, Done}
use openlink.Models.Endpoint.{
  AcarsRoutingEndpoint, NetworkAddress, StationId, StationStatus, online, offline, MetaMessage,
  station_status, OpenLinkRoutingEndpoint, server, address,
}
use openlink.Models.Message.{AcarsEnvelope, OpenLinkMessage, acars, meta_message, OpenLinkEnvelope}
use openlink.Server.Session.{CpdlcSession}
use openlink.Server.Kv.{Kv}
use openlink.Server.Registry.{
  StationEntry, CallsignIndexEntry, Stores, update_status, expire_stale_online,
}
use openlink.Server.Routing.{Routed, route_acars}
use openlink.Server.Presence.{
  Client, Settings, sync_session_snapshots_for_callsign, handle_station_offline,
  broadcast_session_update,
}

-- The buckets and the network.
pub record ServerState (S R I W : Type 0) : Type 0 where
  pub sessions : S
  pub stores : Stores R I
  pub network : W

-- An envelope of the outbox, or a tick of the timer.
pub data Event : Type 0 where
  arrived : OpenLinkEnvelope → Event
  ticked : Event

module _ {S R I W : Type 0} (kv : Kv S CpdlcSession) (kv_registry : Kv R StationEntry)
    (kv_index : Kv I CallsignIndexEntry) (client : Client W) (settings : Settings) where
  -- A station that went offline, in the state behind the write of the registry.
  abbrev went_offline : AcarsRoutingEndpoint → Text → ServerState S R I W → ServerState S R I W
  went_offline endpoint correlation_id x =
      let (s, w) =
        handle_station_offline kv kv_registry kv_index client settings endpoint.callsign
          correlation_id x.stores x.sessions x.network in
      record x { sessions = s; network = w }

  abbrev came_online :
      NetworkAddress → AcarsRoutingEndpoint → Text → ServerState S R I W → ServerState S R I W
  came_online to endpoint correlation_id x = record x {
    network =
        (sync_session_snapshots_for_callsign kv kv_registry kv_index client settings to
          endpoint.callsign correlation_id x.sessions x.network).0;
  }

  abbrev status_updated :
      StationStatus
      → NetworkAddress
      → AcarsRoutingEndpoint
      → Text
      → Stores R I × Done
      → ServerState S R I W
      → ServerState S R I W
  status_updated status to endpoint id (stores, err e) x = record x { stores = stores }
  status_updated online to endpoint id (stores, ok _) x =
      came_online to endpoint id (record x { stores = stores })
  status_updated offline to endpoint id (stores, ok _) x =
      went_offline endpoint id (record x { stores = stores })

  -- A status from an endpoint that is no station is dropped.
  abbrev status_from :
      OpenLinkRoutingEndpoint → MetaMessage → Text → ServerState S R I W → ServerState S R I W
  status_from (server _) m id x = x
  status_from (address _ to) (station_status station_id status endpoint) id x =
      status_updated status to endpoint id
        (update_status kv_registry kv_index station_id status endpoint to (client.clock x.network)
          x.stores)
        x

  unfoldable pub handle_meta_message :
      MetaMessage → OpenLinkEnvelope → ServerState S R I W → ServerState S R I W
  handle_meta_message m root x = status_from root.routing.source m root.id x

  -- The envelope that is forwarded, then the session that is broadcast.
  abbrev forward : Option (NetworkAddress × OpenLinkEnvelope) → W → W
  forward none w = w
  forward (some (to, envelope)) w = (client.send_to_station to envelope w).0

  abbrev broadcast : Option CpdlcSession → OpenLinkEnvelope → Stores R I → W → W
  broadcast none original stores w = w
  broadcast (some session) original stores w =
      broadcast_session_update kv kv_registry kv_index client settings session original stores w

  abbrev handle_payload :
      OpenLinkMessage → OpenLinkEnvelope → ServerState S R I W → ServerState S R I W
  unfolding handle_meta_message
  handle_payload (meta_message m) envelope x = handle_meta_message m envelope x
  handle_payload (acars a) envelope x =
      let (s, routed) =
        route_acars kv kv_registry kv_index settings.network_id a envelope x.stores x.sessions in
      record x {
        sessions = s;
        network = broadcast routed.broadcast envelope x.stores (forward routed.forwarded x.network);
      }

  -- The loop over the entries whose lease has run out.
  unfoldable pub expire_all : List StationEntry → ServerState S R I W → ServerState S R I W
  expire_all [] x = x
  expire_all (e ∷ es) x =
      expire_all es (went_offline e.acars_endpoint (text "presence-expire-" ++ e.station_id) x)

  abbrev swept : Stores R I × Result (List StationEntry) → ServerState S R I W → ServerState S R I W
  unfolding expire_all
  swept (stores, err e) x = record x { stores = stores }
  swept (stores, ok expired) x = expire_all expired (record x { stores = stores })

  unfoldable pub handle_event : Event → ServerState S R I W → ServerState S R I W
  unfolding handle_payload swept
  handle_event (arrived envelope) x = handle_payload envelope.payload envelope x
  handle_event ticked x =
      swept
        (expire_stale_online kv_registry kv_index settings.lease_ttl (client.clock x.network)
          x.stores)
        x

  unfoldable pub run : List Event → ServerState S R I W → ServerState S R I W
  unfolding handle_event
  run [] x = x
  run (e ∷ es) x = run es (handle_event e x)
