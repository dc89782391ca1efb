-- ===== src/Server/Handler/Contract/Runs.antt =====
-- crates/openlink-server/src/acars.rs: messages that the server handles one after the other.
use openlink.Prelude.{
  ◌≡◌, refl, ap, ap₂, ◌∙◌, Option, none, some, List, [], ◌∷◌, map, Result, ok, err, inl, inr,
  Bool-cases, ◌>>=◌, is_ok-bind,
}
use openlink.Models.Endpoint.{AcarsEndpointCallsign}
use openlink.Models.Message.{
  CpdlcApplicationMessage, CpdlcMessageType, application, meta, CpdlcEnvelope, AcarsEnvelope,
  OpenLinkEnvelope,
}
use openlink.Server.Session.{CpdlcSession}
use openlink.Server.Kv.{Kv}
use openlink.Server.Handler.{
  application_update, meta_session, normalize, handle_application, handle_meta, handle_type,
  handle_cpdlc,
}
use openlink.Server.Handler.Exchange.{
  may_exchange, managed, application_update-passed, application_update-refused,
  get_and_update-refused,
}
use openlink.Server.Handler.Contract.{Sessions, Outcome, settle, decide, promise, promises}
use openlink.Server.Handler.Contract.Refine.{
  Works, Meets, observe, addressed, observe-refused, meta_session-Meets, get_and_update-stored,
}
use openlink.Server.Routing.{cpdlc_of}

module _ {S : Type 0} (kv : Kv S CpdlcSession) where
  -- What a handled message leaves, and the part of its result that the session depends on.
  abbrev pub handled : AcarsEnvelope → OpenLinkEnvelope → S → S × Outcome
  handled a original s =
      let (s', r) = handle_cpdlc kv (cpdlc_of a.message) a original s in (s', observe r)

  unfoldable pub handle_all : List (AcarsEnvelope × OpenLinkEnvelope) → S → S × List Outcome
  handle_all [] s = (s, [])
  handle_all ((a, original) ∷ rest) s =
      let (s', outcome) = handled a original s in
      let (final, outcomes) = handle_all rest s' in (final, outcome ∷ outcomes)

  observe-bind :
      {E F : Type 0} (r : Result (AcarsEndpointCallsign × Option CpdlcSession × E))
      (f : AcarsEndpointCallsign × Option CpdlcSession × E → F)
      → observe (r >>= λ t. ok (t.0, t.1, f t)) ≡ observe r
  observe-bind (err e) f = refl
  observe-bind (ok t) f = refl

  observe-addressed :
      (destination : AcarsEndpointCallsign) (r : Result (Option CpdlcSession))
      (original : OpenLinkEnvelope)
      → let sent : Result (AcarsEndpointCallsign × Option CpdlcSession) =
          r >>= λ session. ok (destination, session) in
        observe (sent >>= λ t. ok (t.0, t.1, original)) ≡ addressed destination r
  observe-addressed destination (err e) original = refl
  observe-addressed destination (ok session) original = refl

  module _ (works : Works kv) (c : CpdlcEnvelope) (a : AcarsEnvelope) (original : OpenLinkEnvelope)
      (s : S) where
    application-Meets :
        (msg : CpdlcApplicationMessage) (found : Option CpdlcSession)
        → kv.view s a.aircraft.address ≡ found
        → let p = handle_application kv msg c a s in
          Meets kv works
            (p.0, observe p.1)
            (settle a.aircraft.address c.destination
              (decide (application msg) c a.aircraft found)
              (kv.view s))
    unfolding handle_application
    application-Meets msg none v =
        let (same, failed) =
          get_and_update-refused kv a.aircraft (application_update c.source msg) s
            (rw v (application_update-refused c.source msg none refl)) in
        (ap kv.view same, observe-refused _ (is_ok-bind _ _ failed))
    application-Meets msg (some x) v = elim (Bool-cases (may_exchange msg x)) [
      | inl h ↦
          let (r, w) =
            get_and_update-stored kv works a.aircraft (application_update c.source msg) s
              (managed c.source (normalize msg).elements x) (normalize msg)
              (rw v (application_update-passed c.source msg x h)) in
          rw h (w, rw r refl)
      | inr h ↦
          let (same, failed) =
            get_and_update-refused kv a.aircraft (application_update c.source msg) s
              (rw v (application_update-refused c.source msg (some x) h)) in
          rw h (ap kv.view same, observe-refused _ (is_ok-bind _ _ failed))
    ]

    type-Meets :
        (m : CpdlcMessageType)
        → let p = handle_type kv m c a original s in
          Meets kv works
            (p.0, observe p.1)
            (settle a.aircraft.address c.destination
              (decide m c a.aircraft (kv.view s a.aircraft.address))
              (kv.view s))
    unfolding handle_type handle_meta
    type-Meets (application msg) =
        let (w, r) = application-Meets msg (kv.view s a.aircraft.address) refl in
        (w, observe-bind (handle_application kv msg c a s).1 _ ∙ r)
    type-Meets (meta message) =
        let (w, r) = meta_session-Meets kv works message c a.aircraft s in
        (w, observe-addressed c.destination (meta_session kv message c a.aircraft s).1 original ∙ r)

  module _ (works : Works kv) where
    -- Over a store that works, a handler leaves the sessions, and sends the message and the session
    -- to the parties, that the abstract step says.
    pub handled-promise :
        (a : AcarsEnvelope) (original : OpenLinkEnvelope) (s : S)
        → (kv.view (handled a original s).0 ≡ (promise a (kv.view s)).0)
          × ((handled a original s).1 ≡ (promise a (kv.view s)).1)
    unfolding handle_cpdlc
    handled-promise a original s =
        type-Meets works (cpdlc_of a.message) a original s (cpdlc_of a.message).message

    -- Over a store that works, whatever messages are handled one after the other, the stored sessions
    -- and the outcomes are those of the abstract machine, which knows neither revisions nor
    -- failures of the store and starts from the stored sessions.
    pub handle_all-promises :
        (messages : List (AcarsEnvelope × OpenLinkEnvelope)) (s : S)
        → let abstract_run =
            promises (map (λ (m : AcarsEnvelope × OpenLinkEnvelope). m.0) messages) (kv.view s) in
          (kv.view (handle_all messages s).0 ≡ abstract_run.0)
          × ((handle_all messages s).1 ≡ abstract_run.1)
    unfolding handle_all promises
    handle_all-promises [] s = (refl, refl)
    handle_all-promises ((a, original) ∷ rest) s =
        let (w, r) = handled-promise a original s in
        let (v, q) = handle_all-promises rest (handled a original s).0 in
        let after = λ (sessions : Sessions).
          promises (map (λ (m : AcarsEnvelope × OpenLinkEnvelope). m.0) rest) sessions in
        (
          v ∙ ap (λ (sessions : Sessions). (after sessions).0) w,
          ap₂ ◌∷◌ r (q ∙ ap (λ (sessions : Sessions). (after sessions).1) w),
        )
