-- ===== src/Server/Handler/Contract/Refine.antt =====
-- crates/openlink-server/src/acars.rs: the handlers over a store keep the promise.
use openlink.Prelude.{
  ◌≡◌, refl, ap, fun_ext, inl, inr, Bool-cases, unwrap_or, Done, Text, true, false, Option, none,
  some, Result, ok, err, is_ok, is_ok-bind, arith,
}
use openlink.Models.Endpoint.{AcarsEndpointCallsign, AcarsRoutingEndpoint}
use openlink.Models.Message.{
  CpdlcMetaMessage, logon_response, connection_response, logon_forward, session_update,
  CpdlcEnvelope,
}
use openlink.Server.Session
use openlink.Server.Session.{CpdlcSession, new_session, bare_endpoint}
use openlink.Server.Kv.{Entry, Kv, written}
use openlink.Server.Handler.{
  proceed, revision_of, get_and_update, call_session, session_update_of, meta_session,
}
use openlink.Server.Handler.Contract.{
  Sessions, Outcome, may_connect, settle, stores, refuses, decide_meta,
}
use openlink.Server.Handler.Exchange.{get_and_update-refused, get_and_update-done}
use openlink.Server.Handler.Success.{get_and_update-Updated}

-- A store that no other writer disturbs and that is reachable: every read succeeds, and every write
-- at the revision that was read.
pub record Works {S : Type 0} (kv : Kv S CpdlcSession) : Type 0 where
  pub reads : (s : S) (k : Text) → (found : Option (Entry CpdlcSession)) × (kv.entry s k ≡ ok found)
  pub updates :
      (s : S) (k : Text) (x : CpdlcSession) (found : Option (Entry CpdlcSession))
      → kv.entry s k ≡ ok found
      → (kv.update k x (revision_of found) s).1 ≡ ok tt

module _ {S : Type 0} (kv : Kv S CpdlcSession) (works : Works kv) {A : Type 0} where
  pub get_and_update-stored :
      (aircraft : AcarsRoutingEndpoint)
      (update_fn : Option CpdlcSession → Result (Option CpdlcSession × A)) (s : S)
      (t : CpdlcSession) (x : A)
      → update_fn (kv.view s aircraft.address) ≡ ok (some t, x)
      → ((get_and_update kv aircraft update_fn s).1 ≡ ok (some t, x))
        × (kv.view (get_and_update kv aircraft update_fn s).0
            ≡ written (kv.view s) aircraft.address (some t))
  get_and_update-stored aircraft update_fn s t x u =
      let (found, p) = works.reads s aircraft.address in
      let (r, _) =
        get_and_update-done kv aircraft update_fn s found t x p u
          (works.updates s aircraft.address t found p) in
      let (_, w) = get_and_update-Updated kv aircraft update_fn s (some t, x) r in (r, fun_ext w)

abbrev pub observe :
    {E : Type 0} → Result (AcarsEndpointCallsign × Option CpdlcSession × E) → Outcome
observe (err problem) = none
observe (ok t) = some (t.0, t.1)

pub observe-refused :
    {E : Type 0} (r : Result (AcarsEndpointCallsign × Option CpdlcSession × E))
    → is_ok r ≡ false
    → observe r ≡ none
observe-refused (err problem) h = refl
observe-refused (ok t) h = cc

-- The part of it that a handler of a meta message determines.
abbrev pub addressed : AcarsEndpointCallsign → Result (Option CpdlcSession) → Outcome
addressed destination (err problem) = none
addressed destination (ok session) = some (destination, session)

addressed-refused :
    (destination : AcarsEndpointCallsign) (r : Result (Option CpdlcSession))
    → is_ok r ≡ false
    → addressed destination r ≡ none
addressed-refused destination (err problem) h = refl
addressed-refused destination (ok session) h = cc

proceed-ok : (p : CpdlcSession × Done) → p.1 ≡ ok tt → proceed p ≡ ok p.0
proceed-ok (x, ok _) h = refl
proceed-ok (x, err e) h = cc

proceed-failed : (p : CpdlcSession × Done) → is_ok p.1 ≡ false → is_ok (proceed p) ≡ false
proceed-failed (x, ok _) h = cc
proceed-failed (x, err e) h = refl

logon_accepted-ok :
    (c : AcarsEndpointCallsign) (x : CpdlcSession) → (Session.logon_accepted c x).1 ≡ ok tt
unfolding Session.logon_accepted
logon_accepted-ok c x = ground arith

connection_request-ok :
    (c : AcarsEndpointCallsign) (x : CpdlcSession) → (Session.connection_request c x).1 ≡ ok tt
unfolding Session.connection_request
connection_request-ok c x = ground arith

connection_accepted-ok :
    (c : AcarsEndpointCallsign) (x : CpdlcSession)
    → may_connect c x ≡ true
    → (Session.connection_accepted c x).1 ≡ ok tt
unfolding Session.connection_accepted
connection_accepted-ok c x h = ground arith

connection_accepted-failed :
    (c : AcarsEndpointCallsign) (x : CpdlcSession)
    → may_connect c x ≡ false
    → is_ok (Session.connection_accepted c x).1 ≡ false
unfolding Session.connection_accepted
connection_accepted-failed c x h = ground arith

module _ {S : Type 0} (kv : Kv S CpdlcSession) (works : Works kv) where
  -- The store and the result are what was promised.
  abbrev pub Meets : S × Outcome → Sessions × Outcome → Type 0
  Meets p q = (kv.view p.0 ≡ q.0) × (p.1 ≡ q.1)

  module _ (aircraft : AcarsRoutingEndpoint) (call : CpdlcSession → CpdlcSession × Done)
      (s : S) where
    current : CpdlcSession
    current = unwrap_or (new_session aircraft) (kv.view s aircraft.address)

    call_session-stored :
        (call current).1 ≡ ok tt
        → ((call_session kv aircraft call s).1 ≡ ok (some (call current).0))
          × (kv.view (call_session kv aircraft call s).0
              ≡ written (kv.view s) aircraft.address (some (call current).0))
    unfolding call_session session_update_of current
    call_session-stored h =
        let u : session_update_of aircraft call (kv.view s aircraft.address)
            ≡ ok (some (call current).0, tt) =
          rw (proceed-ok (call current) h) refl in
        let (r, w) =
          get_and_update-stored kv works aircraft (session_update_of aircraft call) s
            (call current).0 tt u in
        (rw r refl, w)

    call_session-failed :
        is_ok (call current).1 ≡ false
        → ((call_session kv aircraft call s).0 ≡ s)
          × (is_ok (call_session kv aircraft call s).1 ≡ false)
    unfolding call_session session_update_of current
    call_session-failed h =
        let u : is_ok (session_update_of aircraft call (kv.view s aircraft.address)) ≡ false =
          is_ok-bind _ _ (proceed-failed (call current) h) in
        let (same, failed) =
          get_and_update-refused kv aircraft (session_update_of aircraft call) s u in
        (same, is_ok-bind _ _ failed)

  module _ (id : Text) (destination : AcarsEndpointCallsign) (s : S)
      (p : S × Result (Option CpdlcSession)) where
    stored-Meets :
        (t : CpdlcSession)
        → p.1 ≡ ok (some t)
        → kv.view p.0 ≡ written (kv.view s) id (some t)
        → Meets (p.0, addressed destination p.1) (settle id destination (stores t) (kv.view s))
    stored-Meets t r w = (w, rw r refl)

    failed-Meets :
        p.0 ≡ s
        → is_ok p.1 ≡ false
        → Meets (p.0, addressed destination p.1) (settle id destination refuses (kv.view s))
    failed-Meets same failed = (ap kv.view same, addressed-refused destination p.1 failed)

  pub meta_session-Meets :
      (message : CpdlcMetaMessage) (c : CpdlcEnvelope) (aircraft : AcarsRoutingEndpoint) (s : S)
      → let x = unwrap_or (new_session aircraft) (kv.view s aircraft.address) in
        let p = meta_session kv message c aircraft s in
        Meets
          (p.0, addressed c.destination p.1)
          (settle aircraft.address c.destination (decide_meta message c x) (kv.view s))
  unfolding meta_session Session.logon_request current
  meta_session-Meets (CpdlcMetaMessage.logon_request station _ _) c aircraft s =
      let (r, w) =
        call_session-stored aircraft (Session.logon_request (bare_endpoint station)) s refl in
      stored-Meets aircraft.address c.destination s _ _ r w
  meta_session-Meets (logon_response true) c aircraft s =
      let (r, w) =
        call_session-stored aircraft (Session.logon_accepted c.source) s
          (logon_accepted-ok c.source _) in
      stored-Meets aircraft.address c.destination s _ _ r w
  meta_session-Meets (logon_response false) c aircraft s = (refl, refl)
  meta_session-Meets CpdlcMetaMessage.connection_request c aircraft s =
      let (r, w) =
        call_session-stored aircraft (Session.connection_request c.source) s
          (connection_request-ok c.source _) in
      stored-Meets aircraft.address c.destination s _ _ r w
  meta_session-Meets (connection_response true) c aircraft s =
      let x = unwrap_or (new_session aircraft) (kv.view s aircraft.address) in
      elim (Bool-cases (may_connect c.destination x)) [
        | inl p ↦
            let (r, w) =
              call_session-stored aircraft (Session.connection_accepted c.destination) s
                (connection_accepted-ok c.destination x p) in
            rw p (stored-Meets aircraft.address c.destination s _ _ r w)
        | inr p ↦
            let (same, failed) =
              call_session-failed aircraft (Session.connection_accepted c.destination) s
                (connection_accepted-failed c.destination x p) in
            rw p (failed-Meets aircraft.address c.destination s _ same failed)
      ]
  meta_session-Meets (connection_response false) c aircraft s = (refl, refl)
  meta_session-Meets (logon_forward _ _ _ _) c aircraft s = (refl, refl)
  meta_session-Meets (session_update _) c aircraft s = (refl, refl)
