-- ===== src/Server/Handler/Exchange.antt =====
-- crates/openlink-server/src/acars.rs: which application messages the server lets pass.
use openlink.Prelude.{
  ℕ, ◌≡◌, refl, inl, inr, Text, text, Bool, true, false, ◌&&◌, Option, none, some, List, [], ◌∷◌,
  arith, leb, head?, is_some_and, is_ok, ok, err, Result, ◌=t◌, =t_refl, is_ok-bind, ◌>>=◌,
  Bool-cases, if◌then◌else◌,
}
use openlink.Models.Endpoint.{AcarsEndpointCallsign, AcarsRoutingEndpoint}
use openlink.Models.Argument.{CpdlcArgument}
use openlink.Models.Message.{
  MessageElement, CpdlcApplicationMessage, application, CpdlcEnvelope, AcarsEnvelope,
}
use openlink.Server.Session
use openlink.Server.Session.{CpdlcConnection, CpdlcSession, ready_exchange, bare_endpoint}
use openlink.Server.Kv.{Entry, Kv}
use openlink.Server.Handler.{
  designate, manage_element, manage, checked, normalize, application_update, revision_of, value_of,
  write_back, get_and_update, handle_application,
}

-- The active connection is ready, and the client's MIN is between 1 and 63.
abbrev pub may_exchange : CpdlcApplicationMessage → CpdlcSession → Bool
may_exchange msg x =
    is_some_and ready_exchange x.active_connection && (leb 1 msg.min && leb msg.min 63)

checked-refused :
    (source : AcarsEndpointCallsign) (msg : CpdlcApplicationMessage) (x : CpdlcSession)
    (slot : Option CpdlcConnection)
    → (is_some_and ready_exchange slot && (leb 1 msg.min && leb msg.min 63)) ≡ false
    → is_ok (checked source msg x slot) ≡ false
checked-refused source msg x none h = refl
checked-refused source msg x (some c) h = elim (Bool-cases (ready_exchange c)) [
  | inl p ↦ elim (Bool-cases (leb 1 msg.min && leb msg.min 63)) [
    | inl q ↦ ground arith
    | inr q ↦ rw (p, q)
  ]
  | inr p ↦ rw p
]

pub application_update-refused :
    (source : AcarsEndpointCallsign) (msg : CpdlcApplicationMessage) (found : Option CpdlcSession)
    → is_some_and (may_exchange msg) found ≡ false
    → is_ok (application_update source msg found) ≡ false
unfolding application_update normalize
application_update-refused source msg none h = refl
application_update-refused source msg (some x) h =
    checked-refused source (normalize msg) x x.active_connection h

-- What UM160 and UM161 make of a session: the first argument of UM160, where it is a facility, is
-- the next data authority; UM161 terminates the connection of the sender.
abbrev designated : Option CpdlcArgument → CpdlcSession → CpdlcSession
designated (some (CpdlcArgument.facility_designation f)) x = record x {
  next_data_authority = some (bare_endpoint f);
}
designated _ x = x

abbrev pub managed : AcarsEndpointCallsign → List MessageElement → CpdlcSession → CpdlcSession
managed source [] x = x
managed source (e ∷ es) x = managed source es (
    if e.id =t text "UM160"
    then designated (head? e.args) x
    else if e.id =t text "UM161"
    then (Session.termination_request source x).0
    else x)

designate-eq : (o : Option CpdlcArgument) (x : CpdlcSession) → designate o x ≡ ok (designated o x)
unfolding Session.next_data_authority
designate-eq (some (CpdlcArgument.facility_designation f)) x = refl
designate-eq _ x = refl

termination_request-ok :
    (source : AcarsEndpointCallsign) (x : CpdlcSession)
    → (Session.termination_request source x).1 ≡ ok tt
unfolding Session.termination_request
termination_request-ok source x = ground arith

manage-eq :
    (source : AcarsEndpointCallsign) (es : List MessageElement) (x : CpdlcSession)
    → manage source es x ≡ ok (managed source es x)
unfolding manage manage_element
manage-eq source [] x = refl
manage-eq source (e ∷ es) x = elim (Bool-cases (e.id =t text "UM160")) [
  | inl p ↦ rw (p, designate-eq) (manage-eq source es (designated (head? e.args) x))
  | inr p ↦ elim (Bool-cases (e.id =t text "UM161")) [
    | inl q ↦ ground (
      arith,
      termination_request-ok source x,
      manage-eq source es (Session.termination_request source x).0,
    )
    | inr q ↦ rw (p, q) (manage-eq source es x)
  ]
]

checked-passed :
    (source : AcarsEndpointCallsign) (msg : CpdlcApplicationMessage) (x : CpdlcSession)
    (slot : Option CpdlcConnection)
    → (is_some_and ready_exchange slot && (leb 1 msg.min && leb msg.min 63)) ≡ true
    → checked source msg x slot ≡ ok (some (managed source msg.elements x), msg)
checked-passed source msg x none h = cc
checked-passed source msg x (some c) h = elim (Bool-cases (ready_exchange c)) [
  | inl p ↦ elim (Bool-cases (leb 1 msg.min && leb msg.min 63)) [
    | inl q ↦ rw (p, q, manage-eq)
    | inr q ↦ ground arith
  ]
  | inr p ↦ ground arith
]

pub application_update-passed :
    (source : AcarsEndpointCallsign) (msg : CpdlcApplicationMessage) (x : CpdlcSession)
    → may_exchange msg x ≡ true
    → application_update source msg (some x)
      ≡ ok (some (managed source (normalize msg).elements x), normalize msg)
unfolding application_update normalize
application_update-passed source msg x h =
    checked-passed source (normalize msg) x x.active_connection h

module _ {S : Type 0} (kv : Kv S CpdlcSession) where
  module _ {A : Type 0} where
    write_back-refused :
        (id : Text) (revision : ℕ) (r : Result (Option CpdlcSession × A)) (s : S)
        → is_ok r ≡ false
        → ((write_back kv id revision r s).0 ≡ s)
          × (is_ok (write_back kv id revision r s).1 ≡ false)
    unfolding write_back
    write_back-refused id revision (ok u) s h = cc
    write_back-refused id revision (err e) s h = (refl, refl)

    pub get_and_update-refused :
        (aircraft : AcarsRoutingEndpoint)
        (update_fn : Option CpdlcSession → Result (Option CpdlcSession × A)) (s : S)
        → is_ok (update_fn (kv.view s aircraft.address)) ≡ false
        → ((get_and_update kv aircraft update_fn s).0 ≡ s)
          × (is_ok (get_and_update kv aircraft update_fn s).1 ≡ false)
    get_and_update-refused aircraft update_fn s h = read (kv.entry s aircraft.address) refl
      where
        Refused : Type 0
        Refused =
            ((get_and_update kv aircraft update_fn s).0 ≡ s)
            × (is_ok (get_and_update kv aircraft update_fn s).1 ≡ false)

        read :
            (r : Result (Option (Entry CpdlcSession))) → kv.entry s aircraft.address ≡ r → Refused
        read (err e) p = unfold get_and_update in rw (p, get_and_update) (refl, refl)
        read (ok found) p =
            let v : value_of found ≡ kv.view s aircraft.address =
              kv.entry-view s aircraft.address found p in
            let h' : is_ok (update_fn (value_of found)) ≡ false = rw v h in
            unfold get_and_update in
            rw (p, get_and_update)
              (write_back-refused aircraft.address (revision_of found) (update_fn (value_of found))
                s h')

    pub get_and_update-done :
        (aircraft : AcarsRoutingEndpoint)
        (update_fn : Option CpdlcSession → Result (Option CpdlcSession × A)) (s : S)
        (found : Option (Entry CpdlcSession)) (t : CpdlcSession) (x : A)
        → kv.entry s aircraft.address ≡ ok found
        → update_fn (kv.view s aircraft.address) ≡ ok (some t, x)
        → (kv.update aircraft.address t (revision_of found) s).1 ≡ ok tt
        → ((get_and_update kv aircraft update_fn s).1 ≡ ok (some t, x))
          × (kv.view (get_and_update kv aircraft update_fn s).0 aircraft.address ≡ some t)
    unfolding get_and_update write_back
    get_and_update-done aircraft update_fn s found t x p u w =
        let v : value_of found ≡ kv.view s aircraft.address =
          kv.entry-view s aircraft.address found p in
        let u' : update_fn (value_of found) ≡ ok (some t, x) = rw v u in
        let d = kv.update_done aircraft.address t (revision_of found) s aircraft.address w in
        let q = =t_refl aircraft.address in
        rw (p, get_and_update) (rw (u', write_back) (rw (w, ◌>>=◌) refl, rw d (rw q)))

  -- A message for an aircraft that has no session, or whose active connection is missing or not
  -- ready, or whose MIN is not between 1 and 63, is refused with an error, and changes nothing.
  pub handle_application-refused :
      (msg : CpdlcApplicationMessage) (c : CpdlcEnvelope) (a : AcarsEnvelope) (s : S)
      → is_some_and (may_exchange msg) (kv.view s a.aircraft.address) ≡ false
      → ((handle_application kv msg c a s).0 ≡ s)
        × (is_ok (handle_application kv msg c a s).1 ≡ false)
  unfolding handle_application
  handle_application-refused msg c a s h =
      let (same, failed) =
        get_and_update-refused a.aircraft (application_update c.source msg) s
          (application_update-refused c.source msg (kv.view s a.aircraft.address) h) in
      (same, is_ok-bind _ _ failed)

  -- Every other message is forwarded to the destination that the client named, with its elements
  -- normalised and all else as the client sent it, and the stored session is the one in which its
  -- UM160 and UM161 elements have been applied in order, if the store reads and writes without a
  -- failure.
  pub handle_application-passed :
      (msg : CpdlcApplicationMessage) (c : CpdlcEnvelope) (a : AcarsEnvelope) (s : S)
      (x : CpdlcSession) (found : Option (Entry CpdlcSession))
      → kv.view s a.aircraft.address ≡ some x
      → may_exchange msg x ≡ true
      → kv.entry s a.aircraft.address ≡ ok found
      → (kv.update a.aircraft.address
          (managed c.source (normalize msg).elements x)
          (revision_of found)
          s).1
        ≡ ok tt
      → let t = managed c.source (normalize msg).elements x in
        ((handle_application kv msg c a s).1
          ≡ ok (c.destination, some t, record c { message = application (normalize msg) }))
        × (kv.view (handle_application kv msg c a s).0 a.aircraft.address ≡ some t)
  unfolding handle_application
  handle_application-passed msg c a s x found v h p w =
      let u : application_update c.source msg (kv.view s a.aircraft.address)
          ≡ ok (some (managed c.source (normalize msg).elements x), normalize msg) =
        rw v (application_update-passed c.source msg x h) in
      let (r, t) =
        get_and_update-done a.aircraft (application_update c.source msg) s found _ _ p u w in
      (rw r, t)
