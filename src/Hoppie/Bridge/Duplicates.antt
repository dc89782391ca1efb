-- ===== src/Hoppie/Bridge/Duplicates.antt =====
-- crates/openlink-hoppie/src/bridge.rs: a message that is handled a second time.
use openlink.Prelude.{
  ℕ, ◌+◌, ◌||◌, [], ◌∷◌, =t_iff, arith, ◌≡◌, ◌≤◌, refl, inl, inr, Text, Bool, true, false, Option,
  none, some, List, length, Bool-cases, to_uppercase, =t_refl, ◌∙◌, ap, ◌=t◌,
}
use openlink.Models.Endpoint.{OpenLinkRoutingEndpoint}
use openlink.Models.Message.{
  CpdlcApplicationMessage, CpdlcMetaMessage, logon_response, CpdlcMessageType, application, meta,
  CpdlcEnvelope, OpenLinkMessage, acars, meta_message, OpenLinkEnvelope,
}
use openlink.Hoppie.Tracker.{
  SessionTracker, contains, record_openlink_min, is_openlink_seen, mark_openlink_seen,
}
use openlink.Hoppie.Tracker.Seen.{mark_seen-room}
use openlink.Hoppie.Translator.{HoppiePacketOut, openlink_to_hoppie}
use openlink.Sdk.Client.{cpdlc_connection_request, cpdlc_connection_response}
use openlink.Hoppie.Bridge.{
  logon_packet, recorded, Networks, Bridge, Ended, done, after_send, send_message, send_packet,
  auto_connect, handle_openlink_meta, send_out, handle_type, handle_payload,
  handle_openlink_message, cpdlc_env, is_own_message,
}

-- What the tracker remembers of the messages that were bridged.
abbrev seen : SessionTracker → List Text × List ℕ
seen t = (t.seen_openlink_ids, t.seen_hoppie_hashes)

module _ {W : Type 0} (networks : Networks W) (hash : Text → Text → ℕ) (cid : Text)
    (bridge_callsigns : List Text) where
  abbrev Keeps : (Bridge W → Bridge W × Ended) → Type 0
  Keeps f = (b : Bridge W) → seen (f b).0.tracker ≡ seen b.tracker

  after_send-Keeps :
      (sent : Bool) (next : Bridge W → Bridge W × Ended)
      → Keeps next
      → Keeps (λ b. after_send sent b next)
  after_send-Keeps true next keeps b = keeps b
  after_send-Keeps false next keeps b = refl

  send_message-Keeps :
      (message : Option OpenLinkMessage) (next : Bridge W → Bridge W × Ended)
      → Keeps next
      → Keeps (λ b. send_message networks hash cid bridge_callsigns message b next)
  send_message-Keeps none next keeps b = refl
  send_message-Keeps (some message) next keeps b =
      let (w, sent) = networks.send_to_server message b.world in
      after_send-Keeps sent next keeps (record b { world = w })

  send_packet-Keeps :
      (from peer packet : Text)
      → Keeps (send_packet networks hash cid bridge_callsigns from peer packet)
  send_packet-Keeps from peer packet b =
      let (w, sent) = networks.send_cpdlc from peer packet b.world in
      after_send-Keeps sent (λ b'. (b', done)) (λ b'. refl) (record b { world = w })

  auto_connect-Keeps :
      (station aircraft : Text) (next : Bridge W → Bridge W × Ended)
      → Keeps next
      → Keeps (λ b. auto_connect networks hash cid bridge_callsigns station aircraft b next)
  unfolding auto_connect
  auto_connect-Keeps station aircraft next keeps b =
      let (m, request) = cpdlc_connection_request station aircraft aircraft b.sequences in
      let respond : Bridge W → Bridge W × Ended = λ b1.
        let (n, response) = cpdlc_connection_response aircraft aircraft station true b1.sequences in
        send_message networks hash cid bridge_callsigns response (record b1 { sequences = n })
          next in
      send_message-Keeps request respond
        (λ b1.
          let (n, response) =
            cpdlc_connection_response aircraft aircraft station true b1.sequences in
          send_message-Keeps response next keeps (record b1 { sequences = n }))
        (record b { sequences = m })

  handle_openlink_meta-Keeps :
      (m : CpdlcMetaMessage) (source dest : Text)
      → Keeps (handle_openlink_meta networks hash cid bridge_callsigns m source dest)
  unfolding handle_openlink_meta
  handle_openlink_meta-Keeps (logon_response true) source dest b =
      auto_connect-Keeps source dest
        (send_packet networks hash cid bridge_callsigns source dest (logon_packet true))
        (send_packet-Keeps source dest (logon_packet true)) b
  handle_openlink_meta-Keeps (logon_response false) source dest b =
      send_packet-Keeps source dest (logon_packet false) b
  handle_openlink_meta-Keeps _ source dest b = refl

  send_out-Keeps :
      (source dest : Text) (app : CpdlcApplicationMessage) (out : Option HoppiePacketOut)
      → Keeps (send_out networks hash cid bridge_callsigns source dest app out)
  unfolding record_openlink_min
  send_out-Keeps source dest app none b = refl
  send_out-Keeps source dest app (some out) b =
      send_packet-Keeps out.from out.peer out.packet (record b {
        tracker = recorded networks hash cid bridge_callsigns source dest app b.tracker;
      })

  handle_type-Keeps :
      (m : CpdlcMessageType) (c : CpdlcEnvelope)
      → Keeps (handle_type networks hash cid bridge_callsigns m c)
  unfolding handle_type openlink_to_hoppie
  handle_type-Keeps (meta m) c b =
      handle_openlink_meta-Keeps m (to_uppercase c.source) (to_uppercase c.destination) b
  handle_type-Keeps (application app) c b =
      send_out-Keeps (to_uppercase c.source) (to_uppercase c.destination) app (openlink_to_hoppie c)
        b

  handle_payload-Keeps :
      (p : OpenLinkMessage) (source : OpenLinkRoutingEndpoint)
      → Keeps (handle_payload networks hash cid bridge_callsigns p source)
  unfolding handle_payload
  handle_payload-Keeps (meta_message m) source b = refl
  handle_payload-Keeps (acars a) source b = elim (Bool-cases (is_own_message cid source)) [
    | inl own ↦ rw own refl
    | inr other ↦ let c = cpdlc_env a.message in rw other (handle_type-Keeps c.message c b)
  ]

  same_seen :
      (id : Text) (t u : SessionTracker)
      → seen t ≡ seen u
      → is_openlink_seen id t ≡ is_openlink_seen id u
  unfolding is_openlink_seen
  same_seen id t u h = ap (λ (p : List Text × List ℕ). contains ◌=t◌ id p.0) h

  -- The tracker after a message.
  abbrev after : OpenLinkEnvelope → Bridge W → SessionTracker
  after envelope b =
      (handle_openlink_message networks hash cid bridge_callsigns envelope b).0.tracker

  after-seen :
      (envelope : OpenLinkEnvelope) (b : Bridge W)
      → is_openlink_seen envelope.id b.tracker ≡ false
      → seen (after envelope b) ≡ seen (mark_openlink_seen envelope.id b.tracker)
  unfolding handle_openlink_message
  after-seen envelope b p =
      let marked = record b { tracker = mark_openlink_seen envelope.id b.tracker } in
      rw (p, after) (handle_payload-Keeps envelope.payload envelope.routing.source marked)

  seen_before :
      (envelope : OpenLinkEnvelope) (b : Bridge W)
      → is_openlink_seen envelope.id b.tracker ≡ true
      → handle_openlink_message networks hash cid bridge_callsigns envelope b ≡ (b, done)
  unfolding handle_openlink_message
  seen_before envelope b p = rw p refl

  -- The set has grown by at most one, and a message that is `id` or was seen is seen.
  abbrev Remembers : Text → OpenLinkEnvelope → Bridge W → Type 0
  Remembers id envelope b =
      (length (after envelope b).seen_openlink_ids ≤ length b.tracker.seen_openlink_ids + 1)
      × ((envelope.id =t id || is_openlink_seen id b.tracker) ≡ true
          → is_openlink_seen id (after envelope b) ≡ true)

  after-Remembers :
      (id : Text) (envelope : OpenLinkEnvelope) (b : Bridge W)
      → length b.tracker.seen_openlink_ids + 1 ≤ 10000
      → Remembers id envelope b
  after-Remembers id envelope b h = elim (Bool-cases (is_openlink_seen envelope.id b.tracker)) [
    | inl p ↦
        let e = ap (λ (r : Bridge W × Ended). r.0.tracker) (seen_before envelope b p) in
        rw e (omega arith, λ s. old p s)
    | inr p ↦
        let e = after-seen envelope b p in
        let (grows, same) = mark_seen-room envelope.id id b.tracker h in
        let sizes = ap (λ (q : List Text × List ℕ). length q.0) e in
        (omega arith, λ s. same_seen id _ _ e ∙ same ∙ s)
  ]
    where
      old :
          is_openlink_seen envelope.id b.tracker ≡ true
          → (envelope.id =t id || is_openlink_seen id b.tracker) ≡ true
          → is_openlink_seen id b.tracker ≡ true
      old p s = elim (Bool-cases (envelope.id =t id)) [
        | inl q ↦ let same = (=t_iff envelope.id id).0 q in rw (← same) p
        | inr q ↦ rw q at s
      ]

  -- The bridge after messages, one after the other.
  unfoldable pub handle_each : List OpenLinkEnvelope → Bridge W → Bridge W
  handle_each [] b = b
  handle_each (envelope ∷ envelopes) b =
      handle_each envelopes
        (handle_openlink_message networks hash cid bridge_callsigns envelope b).0

  each-seen :
      (id : Text) (envelopes : List OpenLinkEnvelope) (b : Bridge W)
      → length b.tracker.seen_openlink_ids + length envelopes ≤ 10000
      → is_openlink_seen id b.tracker ≡ true
      → is_openlink_seen id (handle_each envelopes b).tracker ≡ true
  unfolding handle_each
  each-seen id [] b h s = s
  each-seen id (envelope ∷ envelopes) b h s =
      let (grows, remembers) = after-Remembers id envelope b (omega arith) in
      let known : (envelope.id =t id || is_openlink_seen id b.tracker) ≡ true = ground arith in
      each-seen id envelopes
        (handle_openlink_message networks hash cid bridge_callsigns envelope b).0 (omega arith)
        (remembers known)

  -- A message of OpenLink that the bridge has handled, whatever came of it, has no effect when it
  -- comes again, at once or after any other messages of OpenLink, as long as the set of seen messages
  -- has room for them all: nothing is sent and nothing changes.
  pub handle_openlink_message-again :
      (envelope : OpenLinkEnvelope) (between : List OpenLinkEnvelope) (b : Bridge W)
      → length b.tracker.seen_openlink_ids + (1 + length between) ≤ 10000
      → let later =
          handle_each between
            (handle_openlink_message networks hash cid bridge_callsigns envelope b).0 in
        handle_openlink_message networks hash cid bridge_callsigns envelope later ≡ (later, done)
  handle_openlink_message-again envelope between b h =
      let first = (handle_openlink_message networks hash cid bridge_callsigns envelope b).0 in
      let (grows, remembers) = after-Remembers envelope.id envelope b (omega arith) in
      let known : (envelope.id =t envelope.id || is_openlink_seen envelope.id b.tracker) ≡ true =
        rw (=t_refl envelope.id) refl in
      seen_before envelope (handle_each between first)
        (each-seen envelope.id between first (omega arith) (remembers known))
