-- ===== src/Hoppie/Bridge/Survives.antt =====
-- crates/openlink-hoppie/src/bridge.rs: no builder of the bridge lacks a part, so no handler panics.
use openlink.Prelude.{
  ℕ, ◌≡◌, refl, inl, inr, Text, Bool, true, false, Option, none, some, List, [], ◌∷◌, Bool-cases,
  one_of, to_uppercase,
}
use openlink.Models.Attribute.{downlink}
use openlink.Models.Message.{
  CpdlcApplicationMessage, CpdlcMetaMessage, logon_response, CpdlcMessageType, application, meta,
  CpdlcEnvelope, OpenLinkMessage, acars, meta_message, OpenLinkEnvelope,
}
use openlink.Sdk.Client.{cpdlc_connection_request, cpdlc_connection_response, cpdlc_logon_request}
use openlink.Hoppie.Packet.{HoppieCpdlcPacket, parse_cpdlc_packet}
use openlink.Hoppie.Poll.{HoppieMessage}
use openlink.Hoppie.Tracker.{
  SessionKey, new_key, next_min, is_openlink_seen, mark_openlink_seen, is_hoppie_seen,
  mark_hoppie_seen,
}
use openlink.Hoppie.Translator.{
  HoppiePacketOut, openlink_to_hoppie, hoppie_to_openlink, is_logon_body,
}
use openlink.Hoppie.Bridge.{
  Networks, Bridge, Ended, done, failed, panicked, after_send, send_message, send_packet,
  relay_logon, adjusted, relayed, relay_packet, relay, handle_hoppie_message, auto_connect,
  handle_openlink_meta, logon_packet, recorded, send_out, handle_type, handle_payload,
  handle_openlink_message, cpdlc_env, is_own_message, is_cpdlc,
}
use openlink.Hoppie.Bridge.Loop.{
  BridgeMode, Event, ticked, arrived, polls, listens, unless_panicked, relay_messages, relay_polled,
  handle_event, run_bridge,
}

abbrev survives : Ended → Bool
survives panicked = false
survives _ = true

module _ {W : Type 0} (networks : Networks W) (hash : Text → Text → ℕ) (cid : Text)
    (bridge_callsigns : List Text) where
  abbrev Survives : (Bridge W → Bridge W × Ended) → Type 0
  Survives f = (b : Bridge W) → survives (f b).1 ≡ true

  after_send-Survives :
      (sent : Bool) (next : Bridge W → Bridge W × Ended)
      → Survives next
      → Survives (λ b. after_send sent b next)
  after_send-Survives true next fine b = fine b
  after_send-Survives false next fine b = refl

  send-Survives :
      (message : OpenLinkMessage) (next : Bridge W → Bridge W × Ended)
      → Survives next
      → Survives (λ b. send_message networks hash cid bridge_callsigns (some message) b next)
  send-Survives message next fine b =
      let (w, sent) = networks.send_to_server message b.world in
      after_send-Survives sent next fine (record b { world = w })

  send_packet-Survives :
      (from peer packet : Text)
      → Survives (send_packet networks hash cid bridge_callsigns from peer packet)
  send_packet-Survives from peer packet b =
      let (w, sent) = networks.send_cpdlc from peer packet b.world in
      after_send-Survives sent (λ b'. (b', done)) (λ b'. refl) (record b { world = w })

  relay_logon-Survives :
      (aircraft station : Text)
      → Survives (relay_logon networks hash cid bridge_callsigns aircraft station)
  unfolding relay_logon cpdlc_logon_request
  relay_logon-Survives aircraft station b =
      send-Survives _
        (λ b1.
          let (m, message) = cpdlc_logon_request aircraft aircraft station b1.sequences in
          send_message networks hash cid bridge_callsigns message (record b1 { sequences = m })
            (λ b2. (b2, done)))
        (λ b1.
          send-Survives _ (λ b2. (b2, done)) (λ b2. refl)
            (record b1 {
              sequences = (cpdlc_logon_request aircraft aircraft station b1.sequences).0;
            }))
        b

  relayed-Survives :
      (aircraft : Text) (bridge_min : ℕ) (key : SessionKey) (env : Option CpdlcEnvelope)
      → Survives (relayed networks hash cid bridge_callsigns aircraft bridge_min key env)
  relayed-Survives aircraft bridge_min key none b = refl
  relayed-Survives aircraft bridge_min key (some env) b =
      send-Survives _ (λ b1. (b1, done)) (λ b1. refl)
        (record b { tracker = (adjusted key bridge_min env.message b.tracker).0 })

  relay-Survives :
      (msg : HoppieMessage) (polled_as : Text) (now : ℕ) (pkt : Option HoppieCpdlcPacket)
      → Survives (relay networks hash cid bridge_callsigns msg polled_as now pkt)
  unfolding relay relay_packet
  relay-Survives msg polled_as now none b = refl
  relay-Survives msg polled_as now (some pkt) b = elim (Bool-cases (is_logon_body pkt.body)) [
    | inl p ↦ rw p (relay_logon-Survives msg.from polled_as b)
    | inr p ↦
        let key = new_key msg.from polled_as in
        let (t, bridge_min) = next_min key b.tracker in
        rw p (
          relayed-Survives msg.from bridge_min key
            (hoppie_to_openlink msg.from polled_as msg.packet bridge_min downlink now)
            (record b { tracker = t }))
  ]

  handle_hoppie_message-Survives :
      (msg : HoppieMessage) (polled_as : Text) (now : ℕ)
      → Survives (handle_hoppie_message networks hash cid bridge_callsigns msg polled_as now)
  unfolding handle_hoppie_message
  handle_hoppie_message-Survives msg polled_as now b =
      let h = hash msg.from msg.packet in
      let marked = record b { tracker = mark_hoppie_seen h b.tracker } in
      let fine = relay-Survives msg polled_as now (parse_cpdlc_packet msg.packet) marked in
      elim (Bool-cases (is_cpdlc msg.msg_type)) [
        | inl p ↦ elim (Bool-cases (is_hoppie_seen h b.tracker)) [
          | inl q ↦ rw (p, q) refl
          | inr q ↦ elim (Bool-cases (one_of (to_uppercase msg.from) bridge_callsigns)) [
            | inl r ↦ rw (p, q, r) refl
            | inr r ↦ rw (p, q, r) fine
          ]
        ]
        | inr p ↦ rw p refl
      ]

  auto_connect-Survives :
      (station aircraft : Text) (next : Bridge W → Bridge W × Ended)
      → Survives next
      → Survives (λ b. auto_connect networks hash cid bridge_callsigns station aircraft b next)
  unfolding auto_connect cpdlc_connection_request cpdlc_connection_response
  auto_connect-Survives station aircraft next fine b =
      send-Survives _
        (λ b1.
          let (n, response) =
            cpdlc_connection_response aircraft aircraft station true b1.sequences in
          send_message networks hash cid bridge_callsigns response (record b1 { sequences = n })
            next)
        (λ b1. send-Survives _ next fine b1)
        (record b {
          sequences = (cpdlc_connection_request station aircraft aircraft b.sequences).0;
        })

  handle_openlink_meta-Survives :
      (m : CpdlcMetaMessage) (source dest : Text)
      → Survives (handle_openlink_meta networks hash cid bridge_callsigns m source dest)
  unfolding handle_openlink_meta
  handle_openlink_meta-Survives (logon_response true) source dest b =
      auto_connect-Survives source dest
        (send_packet networks hash cid bridge_callsigns source dest (logon_packet true))
        (send_packet-Survives source dest (logon_packet true)) b
  handle_openlink_meta-Survives (logon_response false) source dest b =
      send_packet-Survives source dest (logon_packet false) b
  handle_openlink_meta-Survives _ source dest b = refl

  send_out-Survives :
      (source dest : Text) (app : CpdlcApplicationMessage) (out : Option HoppiePacketOut)
      → Survives (send_out networks hash cid bridge_callsigns source dest app out)
  send_out-Survives source dest app none b = refl
  send_out-Survives source dest app (some out) b =
      send_packet-Survives out.from out.peer out.packet (record b {
        tracker = recorded networks hash cid bridge_callsigns source dest app b.tracker;
      })

  handle_openlink_message-Survives :
      (envelope : OpenLinkEnvelope)
      → Survives (handle_openlink_message networks hash cid bridge_callsigns envelope)
  unfolding handle_openlink_message
  handle_openlink_message-Survives envelope b =
      let marked = record b { tracker = mark_openlink_seen envelope.id b.tracker } in
      elim (Bool-cases (is_openlink_seen envelope.id b.tracker)) [
        | inl p ↦ rw p refl
        | inr p ↦ rw p (payload envelope.payload marked)
      ]
    where
      of_type :
          (m : CpdlcMessageType) (c : CpdlcEnvelope)
          → Survives (handle_type networks hash cid bridge_callsigns m c)
      of_type (meta m) c b' =
          unfold handle_type in
          handle_openlink_meta-Survives m (to_uppercase c.source) (to_uppercase c.destination) b'
      of_type (application app) c b' =
          unfold handle_type in
          send_out-Survives (to_uppercase c.source) (to_uppercase c.destination) app
            (openlink_to_hoppie c) b'

      payload :
          (p : OpenLinkMessage)
          → Survives (handle_payload networks hash cid bridge_callsigns p envelope.routing.source)
      payload (meta_message m) b' = unfold handle_payload in refl
      payload (acars a) b' =
          let c = cpdlc_env a.message in
          elim (Bool-cases (is_own_message cid envelope.routing.source)) [
            | inl own ↦ unfold handle_payload in rw own refl
            | inr other ↦ unfold handle_payload in rw other (of_type c.message c b')
          ]

  goes_on :
      (p : Bridge W × Ended) (next : Bridge W → Bridge W × Ended)
      → survives p.1 ≡ true
      → ((b : Bridge W) → (next b).1 ≡ done)
      → (unless_panicked networks hash cid bridge_callsigns p next).1 ≡ done
  goes_on (b, done) next h more = more b
  goes_on (b, failed) next h more = more b
  goes_on (b, panicked) next h more = cc

  relay_messages-done :
      (msgs : List HoppieMessage) (polled_as : Text) (now : ℕ) (b : Bridge W)
      → (relay_messages networks hash cid bridge_callsigns msgs polled_as now b).1 ≡ done
  unfolding relay_messages
  relay_messages-done [] polled_as now b = refl
  relay_messages-done (msg ∷ msgs) polled_as now b =
      goes_on _ _ (handle_hoppie_message-Survives msg polled_as now b)
        (relay_messages-done msgs polled_as now)

  relay_polled-done :
      (polled : List (Text × Option (List HoppieMessage))) (now : ℕ) (b : Bridge W)
      → (relay_polled networks hash cid bridge_callsigns polled now b).1 ≡ done
  unfolding relay_polled
  relay_polled-done [] now b = refl
  relay_polled-done ((callsign, none) ∷ rest) now b = relay_polled-done rest now b
  relay_polled-done ((callsign, some msgs) ∷ rest) now b =
      let h : survives (relay_messages networks hash cid bridge_callsigns msgs callsign now b).1
          ≡ true =
        rw (relay_messages-done msgs callsign now b) refl in
      goes_on _ _ h (relay_polled-done rest now)

  handle_event-Survives :
      (mode : BridgeMode) (e : Event)
      → Survives (handle_event networks hash cid bridge_callsigns mode e)
  unfolding handle_event
  handle_event-Survives mode (ticked now polled) b = elim (Bool-cases (polls mode)) [
    | inl p ↦ rw p (rw (relay_polled-done polled now b) refl)
    | inr p ↦ rw p refl
  ]
  handle_event-Survives mode (arrived none) b = refl
  handle_event-Survives mode (arrived (some envelope)) b = elim (Bool-cases (listens mode)) [
    | inl p ↦ rw p (handle_openlink_message-Survives envelope b)
    | inr p ↦ rw p refl
  ]

  -- In every mode, whatever events come, in whatever order, and whichever sends fail, the loop of the
  -- bridge gets through them all: it neither stops at an error nor panics.
  pub run_bridge-done :
      (mode : BridgeMode) (events : List Event) (b : Bridge W)
      → (run_bridge networks hash cid bridge_callsigns mode events b).1 ≡ done
  unfolding run_bridge
  run_bridge-done mode [] b = refl
  run_bridge-done mode (e ∷ es) b =
      goes_on _ _ (handle_event-Survives mode e b) (run_bridge-done mode es)
