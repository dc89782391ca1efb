-- ===== src/Server/Routing.antt =====
-- crates/openlink-server/src/server.rs: what the loop of `OpenLinkServer::run` does with an ACARS
-- message, and who receives the session update behind it.
pub mod Delivery
use openlink.Prelude.{
  Text, Bool, true, false, not, Option, none, some, List, [], ◌∷◌, ◌=t◌, one_of, map_option, Result,
  ok, err, ◌>>=◌, if◌then◌else◌,
}
use openlink.Models.Endpoint.{NetworkId, NetworkAddress, address}
use openlink.Models.Message.{
  AcarsMessage, cpdlc, CpdlcEnvelope, AcarsEnvelope, OpenLinkMessage, acars, meta_message,
  OpenLinkEnvelope,
}
use openlink.Server.Session.{CpdlcConnection, CpdlcSession}
use openlink.Server.Kv.{Kv}
use openlink.Server.Handler.{handle_cpdlc}
use openlink.Server.Registry.{StationEntry, CallsignIndexEntry, Stores, lookup_callsign}

abbrev pub cpdlc_of : AcarsMessage → CpdlcEnvelope
cpdlc_of (cpdlc c) = c

-- `.ok().flatten()`
abbrev pub found : {A : Type 0} → Result (Option A) → Option A
found (err e) = none
found (ok o) = o

-- The envelope that is forwarded, and the address of the inbox that it goes to.
abbrev pub transferred :
    NetworkId
    → OpenLinkEnvelope
    → OpenLinkEnvelope
    → StationEntry
    → NetworkAddress × OpenLinkEnvelope
transferred network original forward dest = (
  dest.network_address,
  record forward {
    routing = record {
      source = original.routing.destination;
      destination = address network dest.network_address;
    };
  },
)

-- What the loop sends: the forwarded envelope, and the session to broadcast.
pub record Routed : Type 0 where
  pub forwarded : Option (NetworkAddress × OpenLinkEnvelope)
  pub broadcast : Option CpdlcSession

abbrev pub nothing_routed : Routed
nothing_routed = record { forwarded = none; broadcast = none }

module _ {S R I : Type 0} (kv : Kv S CpdlcSession) (kv_registry : Kv R StationEntry)
    (kv_index : Kv I CallsignIndexEntry) where
  unfoldable pub handle_acars_message :
      AcarsEnvelope
      → OpenLinkEnvelope
      → Stores R I
      → S
      → S × Result (Option StationEntry × Option CpdlcSession × OpenLinkEnvelope)
  handle_acars_message a envelope stores s =
      let (s', r) = handle_cpdlc kv (cpdlc_of a.message) a envelope s in
      (s', r >>= λ t. ok (found (lookup_callsign kv_registry kv_index t.0 stores), t.1, t.2))

  abbrev pub routed :
      NetworkId
      → OpenLinkEnvelope
      → Result (Option StationEntry × Option CpdlcSession × OpenLinkEnvelope)
      → Routed
  routed network envelope (err e) = nothing_routed
  routed network envelope (ok t) = record {
    forwarded = map_option (transferred network envelope t.2) t.0;
    broadcast = t.1;
  }

  -- A round of the loop for an ACARS message.
  unfoldable pub route_acars :
      NetworkId → AcarsEnvelope → OpenLinkEnvelope → Stores R I → S → S × Routed
  unfolding handle_acars_message
  route_acars network a envelope stores s =
      let (s', r) = handle_acars_message a envelope stores s in (s', routed network envelope r)

-- `HashSet::insert`
abbrev add_callsign : Text → List Text → List Text
add_callsign c cs = if one_of c cs then cs else c ∷ cs

abbrev add_station : Option CpdlcConnection → List Text → List Text
add_station none cs = cs
add_station (some c) cs = add_callsign c.station.callsign cs

abbrev add_party : Text → Text → List Text → List Text
add_party aircraft c cs = if not (c =t aircraft) then add_callsign c cs else cs

abbrev add_parties : Text → OpenLinkMessage → List Text → List Text
add_parties aircraft (meta_message m) cs = cs
add_parties aircraft (acars a) cs =
    add_party aircraft (cpdlc_of a.message).destination
      (add_party aircraft (cpdlc_of a.message).source cs)

-- The stations that `broadcast_session_update` addresses.
unfoldable pub station_callsigns : CpdlcSession → OpenLinkEnvelope → List Text
station_callsigns session original =
    add_parties session.aircraft.callsign original.payload
      (add_station session.inactive_connection (add_station session.active_connection []))
