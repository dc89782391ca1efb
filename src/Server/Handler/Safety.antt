-- ===== src/Server/Handler/Safety.antt =====
-- crates/openlink-server/src/acars.rs: the message handlers keep every stored session sound, and
-- touch no session but that of the aircraft that the message is about.
use openlink.Prelude.{
  ℕ, ◌≡◌, ◌≢◌, refl, inl, inr, ◌⊎◌, Text, true, false, none, some, Option, ok, err, Result, Done,
  =t_ne,
}
use openlink.Models.Endpoint.{AcarsRoutingEndpoint}
use openlink.Models.Message.{
  CpdlcApplicationMessage, CpdlcMetaMessage, logon_response, connection_response, logon_forward,
  session_update, CpdlcMessageType, application, meta, CpdlcEnvelope, AcarsEnvelope,
  OpenLinkEnvelope,
}
use openlink.Server.Session
use openlink.Server.Session.{CpdlcSession, bare_endpoint}
use openlink.Server.Kv.{Entry, Kv, written}
use openlink.Server.Handler.{
  application_update, session_update_of, revision_of, value_of, write_back, get_and_update,
  handle_application, call_session, meta_session, handle_meta, handle_type, handle_cpdlc,
}
use openlink.Server.Handler.Stored.{
  Keeps, AllSound, application_update-OnOk, session_update_of-OnOk, get_and_update-AllSound,
  logon_request-Keeps, logon_accepted-Keeps, connection_request-Keeps, connection_accepted-Keeps,
}

module _ {S : Type 0} (kv : Kv S CpdlcSession) where
  handle_application-AllSound :
      (msg : CpdlcApplicationMessage) (c : CpdlcEnvelope) (a : AcarsEnvelope) (s : S)
      → AllSound kv s
      → AllSound kv (handle_application kv msg c a s).0
  unfolding handle_application
  handle_application-AllSound msg c a s =
      get_and_update-AllSound kv a.aircraft (application_update c.source msg) s
        (application_update-OnOk a.aircraft.address c.source msg)

  call_session-AllSound :
      (aircraft : AcarsRoutingEndpoint) (call : CpdlcSession → CpdlcSession × Done) (s : S)
      → Keeps call
      → AllSound kv s
      → AllSound kv (call_session kv aircraft call s).0
  unfolding call_session
  call_session-AllSound aircraft call s keeps =
      get_and_update-AllSound kv aircraft (session_update_of aircraft call) s
        (λ found. session_update_of-OnOk aircraft call found keeps)

  handle_meta-AllSound :
      (message : CpdlcMetaMessage) (c : CpdlcEnvelope) (a : AcarsEnvelope) (s : S)
      → AllSound kv s
      → AllSound kv (handle_meta kv message c a s).0
  unfolding handle_meta meta_session
  handle_meta-AllSound (CpdlcMetaMessage.logon_request station _ _) c a s =
      call_session-AllSound a.aircraft (Session.logon_request (bare_endpoint station)) s
        (logon_request-Keeps (bare_endpoint station))
  handle_meta-AllSound (logon_response true) c a s =
      call_session-AllSound a.aircraft (Session.logon_accepted c.source) s
        (logon_accepted-Keeps c.source)
  handle_meta-AllSound (logon_response false) c a s = λ h. h
  handle_meta-AllSound CpdlcMetaMessage.connection_request c a s =
      call_session-AllSound a.aircraft (Session.connection_request c.source) s
        (connection_request-Keeps c.source)
  handle_meta-AllSound (connection_response true) c a s =
      call_session-AllSound a.aircraft (Session.connection_accepted c.destination) s
        (connection_accepted-Keeps c.destination)
  handle_meta-AllSound (connection_response false) c a s = λ h. h
  handle_meta-AllSound (logon_forward _ _ _ _) c a s = λ h. h
  handle_meta-AllSound (session_update _) c a s = λ h. h

  handle_type-AllSound :
      (m : CpdlcMessageType) (c : CpdlcEnvelope) (a : AcarsEnvelope) (original : OpenLinkEnvelope)
      (s : S)
      → AllSound kv s
      → AllSound kv (handle_type kv m c a original s).0
  unfolding handle_type
  handle_type-AllSound (application msg) c a original s = handle_application-AllSound msg c a s
  handle_type-AllSound (meta message) c a original s = handle_meta-AllSound message c a s

  -- Whatever the message, its outcome and the failures of the store: if every stored session is
  -- valid and stands under the address of its aircraft, so it is after the message.
  pub handle_cpdlc-AllSound :
      (c : CpdlcEnvelope) (a : AcarsEnvelope) (original : OpenLinkEnvelope) (s : S)
      → AllSound kv s
      → AllSound kv (handle_cpdlc kv c a original s).0
  unfolding handle_cpdlc
  handle_cpdlc-AllSound c a original s = handle_type-AllSound c.message c a original s

  elsewhere :
      (s s' : S) (id k : Text) (o : Option CpdlcSession)
      → id ≢ k
      → (kv.view s' k ≡ kv.view s k) ⊎ (kv.view s' k ≡ written (kv.view s) id o k)
      → kv.view s' k ≡ kv.view s k
  elsewhere s s' id k o ne (inl same) = same
  elsewhere s s' id k o ne (inr new) = rw (new, =t_ne id k ne)

  module _ {A : Type 0} (k : Text) where
    write_back-elsewhere :
        (id : Text) (revision : ℕ) (r : Result (Option CpdlcSession × A)) (s : S)
        → id ≢ k
        → kv.view (write_back kv id revision r s).0 k ≡ kv.view s k
    unfolding write_back
    write_back-elsewhere id revision (err e) s ne = refl
    write_back-elsewhere id revision (ok (some t, a)) s ne =
        elsewhere s (kv.update id t revision s).0 id k (some t) ne (kv.update_any id t revision s k)
    write_back-elsewhere id revision (ok (none, a)) s ne =
        elsewhere s (kv.delete id s).0 id k none ne (kv.delete_any id s k)

    pub get_and_update-elsewhere :
        (aircraft : AcarsRoutingEndpoint)
        (update_fn : Option CpdlcSession → Result (Option CpdlcSession × A)) (s : S)
        → aircraft.address ≢ k
        → kv.view (get_and_update kv aircraft update_fn s).0 k ≡ kv.view s k
    get_and_update-elsewhere aircraft update_fn s ne = read (kv.entry s aircraft.address) refl
      where
        read :
            (r : Result (Option (Entry CpdlcSession)))
            → kv.entry s aircraft.address ≡ r
            → kv.view (get_and_update kv aircraft update_fn s).0 k ≡ kv.view s k
        read (err e) p = unfold get_and_update in rw (p, get_and_update)
        read (ok found) p =
            unfold get_and_update in
            rw (p, get_and_update)
              (write_back-elsewhere aircraft.address (revision_of found)
                (update_fn (value_of found)) s ne)

  meta_session-elsewhere :
      (message : CpdlcMetaMessage) (c : CpdlcEnvelope) (aircraft : AcarsRoutingEndpoint) (s : S)
      (k : Text)
      → aircraft.address ≢ k
      → kv.view (meta_session kv message c aircraft s).0 k ≡ kv.view s k
  unfolding meta_session
  meta_session-elsewhere (CpdlcMetaMessage.logon_request station _ _) c aircraft s k ne =
      get_and_update-elsewhere k aircraft _ s ne
  meta_session-elsewhere (logon_response true) c aircraft s k ne =
      get_and_update-elsewhere k aircraft _ s ne
  meta_session-elsewhere CpdlcMetaMessage.connection_request c aircraft s k ne =
      get_and_update-elsewhere k aircraft _ s ne
  meta_session-elsewhere (connection_response true) c aircraft s k ne =
      get_and_update-elsewhere k aircraft _ s ne
  meta_session-elsewhere _ c aircraft s k ne = refl

  handle_type-elsewhere :
      (m : CpdlcMessageType) (c : CpdlcEnvelope) (a : AcarsEnvelope) (original : OpenLinkEnvelope)
      (s : S) (k : Text)
      → a.aircraft.address ≢ k
      → kv.view (handle_type kv m c a original s).0 k ≡ kv.view s k
  unfolding handle_type handle_application handle_meta
  handle_type-elsewhere (application msg) c a original s k ne =
      get_and_update-elsewhere k a.aircraft (application_update c.source msg) s ne
  handle_type-elsewhere (meta message) c a original s k ne =
      meta_session-elsewhere message c a.aircraft s k ne

  -- Whatever the message, its outcome and the failures of the store, the sessions stored under
  -- another address than that of the message's aircraft stay as they are.
  pub handle_cpdlc-elsewhere :
      (c : CpdlcEnvelope) (a : AcarsEnvelope) (original : OpenLinkEnvelope) (s : S) (k : Text)
      → a.aircraft.address ≢ k
      → kv.view (handle_cpdlc kv c a original s).0 k ≡ kv.view s k
  unfolding handle_cpdlc
  handle_cpdlc-elsewhere c a original s k ne = handle_type-elsewhere c.message c a original s k ne
