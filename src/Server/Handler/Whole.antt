-- ===== src/Server/Handler/Whole.antt =====
-- crates/openlink-server/src/acars.rs: application messages through `handle_cpdlc_message`.
use openlink.Prelude.{◌≡◌, refl, true, false, Option, some, is_some_and, is_ok, ok, is_ok-bind}
use openlink.Models.Message.{
  CpdlcApplicationMessage, application, CpdlcEnvelope, AcarsEnvelope, OpenLinkEnvelope,
}
use openlink.Server.Session.{CpdlcSession}
use openlink.Server.Kv.{Entry, Kv}
use openlink.Server.Handler.{normalize, revision_of, with_cpdlc, handle_type, handle_cpdlc}
use openlink.Server.Handler.Exchange.{
  may_exchange, managed, handle_application-refused, handle_application-passed,
}

module _ {S : Type 0} (kv : Kv S CpdlcSession) where
  pub handle_cpdlc-refused :
      (msg : CpdlcApplicationMessage) (c : CpdlcEnvelope) (a : AcarsEnvelope)
      (original : OpenLinkEnvelope) (s : S)
      → is_some_and (may_exchange msg) (kv.view s a.aircraft.address) ≡ false
      → let r = handle_cpdlc kv (record c { message = application msg }) a original s in
        (r.0 ≡ s) × (is_ok r.1 ≡ false)
  unfolding handle_cpdlc handle_type
  handle_cpdlc-refused msg c a original s h =
      let (same, failed) =
        handle_application-refused kv msg (record c { message = application msg }) a s h in
      (same, is_ok-bind _ _ failed)

  pub handle_cpdlc-passed :
      (msg : CpdlcApplicationMessage) (c : CpdlcEnvelope) (a : AcarsEnvelope)
      (original : OpenLinkEnvelope) (s : S) (x : CpdlcSession) (found : Option (Entry CpdlcSession))
      → kv.view s a.aircraft.address ≡ some x
      → may_exchange msg x ≡ true
      → kv.entry s a.aircraft.address ≡ ok found
      → (kv.update a.aircraft.address
          (managed c.source (normalize msg).elements x)
          (revision_of found)
          s).1
        ≡ ok tt
      → (handle_cpdlc kv (record c { message = application msg }) a original s).1
        ≡ ok (
          c.destination,
          some (managed c.source (normalize msg).elements x),
          record original {
            payload =
                with_cpdlc (record c { message = application (normalize msg) }) original.payload;
          },
        )
  unfolding handle_cpdlc handle_type
  handle_cpdlc-passed msg c a original s x found v h p w =
      let (r, _) =
        handle_application-passed kv msg (record c { message = application msg }) a s x found v h p
          w in
      rw r refl
