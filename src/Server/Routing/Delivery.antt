-- ===== src/Server/Routing/Delivery.antt =====
-- crates/openlink-server/src/server.rs: what leaves the server, and for whom.
use openlink.Prelude.{
  ◌≡◌, refl, ◌∙◌, inl, inr, Text, true, false, not, ◌&&◌, ◌||◌, Option, none, some, List, [], ◌=t◌,
  =t_iff, one_of, is_some_and, is_ok, Result, ok, err, ◌>>=◌, arith, Bool-cases,
}
use openlink.Models.Endpoint.{NetworkId, address}
use openlink.Models.Message.{
  CpdlcApplicationMessage, application, cpdlc, CpdlcEnvelope, AcarsEnvelope, acars,
  OpenLinkEnvelope,
}
use openlink.Server.Session.{CpdlcConnection, CpdlcSession, holds}
use openlink.Server.Kv.{Entry, Kv}
use openlink.Server.Handler.{normalize, revision_of}
use openlink.Server.Handler.Exchange.{may_exchange, managed}
use openlink.Server.Handler.Whole.{handle_cpdlc-refused, handle_cpdlc-passed}
use openlink.Server.Registry.{StationEntry, CallsignIndexEntry, Stores, lookup_callsign}
use openlink.Server.Routing.{
  nothing_routed, handle_acars_message, routed, route_acars, add_callsign, add_station, add_party,
  station_callsigns, cpdlc_of,
}

module _ {S R I : Type 0} (kv : Kv S CpdlcSession) (kv_registry : Kv R StationEntry)
    (kv_index : Kv I CallsignIndexEntry) where
  routed-failed :
      {A : Type 0} (network : NetworkId) (envelope : OpenLinkEnvelope) (m : Result A)
      (next : A → Result (Option StationEntry × Option CpdlcSession × OpenLinkEnvelope))
      → is_ok m ≡ false
      → routed kv kv_registry kv_index network envelope (m >>= next) ≡ nothing_routed
  routed-failed network envelope (err e) next h = refl
  routed-failed network envelope (ok u) next h = cc

  -- An application message that may not be exchanged leaves the server in no form: nothing is
  -- forwarded, no session update is broadcast, and the stored sessions stay as they are.
  pub route_acars-refused :
      (network : NetworkId) (msg : CpdlcApplicationMessage) (c : CpdlcEnvelope) (a : AcarsEnvelope)
      (envelope : OpenLinkEnvelope) (stores : Stores R I) (s : S)
      → is_some_and (may_exchange msg) (kv.view s a.aircraft.address) ≡ false
      → route_acars kv kv_registry kv_index network
          (record a { message = cpdlc (record c { message = application msg }) })
          envelope
          stores
          s
        ≡ (s, nothing_routed)
  unfolding route_acars handle_acars_message
  route_acars-refused network msg c a envelope stores s h =
      let (same, failed) =
        handle_cpdlc-refused kv msg c
          (record a { message = cpdlc (record c { message = application msg }) }) envelope s h in
      let quiet = routed-failed network envelope _ _ failed in λ i. (same i, quiet i)

  -- An application message that may be exchanged is forwarded, if the store works, to the inbox of
  -- the station that the registry finds under the callsign which the client named: with the payload
  -- normalised, from the server that the client addressed, and with all else as it was sent. The
  -- session with its UM160 and UM161 elements applied is broadcast.
  pub route_acars-passed :
      (network : NetworkId) (msg : CpdlcApplicationMessage) (c : CpdlcEnvelope) (a : AcarsEnvelope)
      (envelope : OpenLinkEnvelope) (stores : Stores R I) (s : S) (x : CpdlcSession)
      (entry : Option (Entry CpdlcSession)) (dest : StationEntry)
      → kv.view s a.aircraft.address ≡ some x
      → may_exchange msg x ≡ true
      → kv.entry s a.aircraft.address ≡ ok entry
      → (kv.update a.aircraft.address
          (managed c.source (normalize msg).elements x)
          (revision_of entry)
          s).1
        ≡ ok tt
      → lookup_callsign kv_registry kv_index c.destination stores ≡ ok (some dest)
      → let sent = record a { message = cpdlc (record c { message = application msg }) } in
        (route_acars kv kv_registry kv_index network sent
          (record envelope { payload = acars sent })
          stores
          s).1
        ≡ record {
          forwarded = some (
            dest.network_address,
            record envelope {
              payload = acars (record a {
                message = cpdlc (record c { message = application (normalize msg) });
              });
              routing = record {
                source = envelope.routing.destination;
                destination = address network dest.network_address;
              };
            },
          );
          broadcast = some (managed c.source (normalize msg).elements x);
        }
  unfolding route_acars handle_acars_message
  route_acars-passed network msg c a envelope stores s x entry dest v h p w l =
      let sent = record a { message = cpdlc (record c { message = application msg }) } in
      let r =
        handle_cpdlc-passed kv msg c sent (record envelope { payload = acars sent }) s x entry v h p
          w in
      rw r (rw l refl)

=t_sym : (s t : Text) → (s =t t) ≡ (t =t s)
=t_sym s t = ground (arith, =t_iff s t, =t_iff t s)

add_callsign-one_of :
    (k c : Text) (cs : List Text) → one_of k (add_callsign c cs) ≡ (c =t k || one_of k cs)
add_callsign-one_of k c cs = elim (Bool-cases (one_of c cs)) [
  | inl p ↦ elim (Bool-cases (c =t k)) [
    | inl q ↦ let e = (=t_iff c k).0 q in rw p (rw q (rw (← e) p))
    | inr q ↦ rw (p, q) refl
  ]
  | inr p ↦ rw p (rw (=t_sym k c) refl)
]

add_station-one_of :
    (k : Text) (slot : Option CpdlcConnection) (cs : List Text)
    → one_of k (add_station slot cs) ≡ (holds k slot || one_of k cs)
add_station-one_of k none cs = refl
add_station-one_of k (some c) cs = add_callsign-one_of k c.station.callsign cs

add_party-one_of :
    (k aircraft c : Text) (cs : List Text)
    → one_of k (add_party aircraft c cs) ≡ (not (c =t aircraft) && c =t k || one_of k cs)
add_party-one_of k aircraft c cs = elim (Bool-cases (c =t aircraft)) [
  | inl p ↦ rw p refl
  | inr p ↦ rw p (add_callsign-one_of k c cs)
]

-- A callsign is among the addressees of the session update behind an ACARS message exactly if it
-- holds a slot of the updated session, or is the source or the destination of the message and not
-- the aircraft.
pub station_callsigns_iff :
    (k : Text) (session : CpdlcSession) (original : OpenLinkEnvelope) (a : AcarsEnvelope)
    → let c = cpdlc_of a.message in
      let aircraft = session.aircraft.callsign in
      one_of k (station_callsigns session (record original { payload = acars a })) ≡ (
        (not (c.destination =t aircraft) && c.destination =t k)
        || ((not (c.source =t aircraft) && c.source =t k)
            || (holds k session.inactive_connection
                || (holds k session.active_connection || false))))
unfolding station_callsigns
station_callsigns_iff k session original a =
    let c = cpdlc_of a.message in
    let aircraft = session.aircraft.callsign in
    let active = add_station session.active_connection [] in
    let slots = add_station session.inactive_connection active in
    let d = add_party-one_of k aircraft c.destination (add_party aircraft c.source slots) in
    let e = add_party-one_of k aircraft c.source slots in
    let f = add_station-one_of k session.inactive_connection active in
    let g = add_station-one_of k session.active_connection [] in d ∙ rw (e, f, g) refl
