-- ===== src/Server/Handler/Stored.antt =====
-- crates/openlink-server/src/acars.rs: what the message handlers keep of the stored sessions.
use openlink.Prelude.{
  ℕ, leb, ◌&&◌, ◌≡◌, refl, ◌⊎◌, inl, inr, Text, Option, none, some, List, [], ◌∷◌, arith, ok, err,
  Done, Result, ◌=t◌, =t_iff, OnSome, OnOk, OnOk-bind, unwrap_or, ◌>>=◌, Bool-cases, head?, text,
}
use openlink.Models.Endpoint.{AcarsEndpointCallsign, AcarsRoutingEndpoint}
use openlink.Models.Argument.{CpdlcArgument}
use openlink.Models.Message.{MessageElement, CpdlcApplicationMessage}
use openlink.Server.Session
use openlink.Server.Session.{
  CpdlcConnection, CpdlcSession, new_session, bare_endpoint, ready_exchange,
}
use openlink.Server.Session.Invariant.{
  IsValid, new_session-IsValid, logon_request-IsValid, logon_accepted-IsValid,
  connection_request-IsValid, connection_accepted-IsValid, next_data_authority-IsValid,
  termination_request-IsValid,
}
use openlink.Server.Kv.{Entry, Kv, written}
use openlink.Server.Handler.{
  proceed, designate, manage_element, manage, application_update, session_update_of, revision_of,
  value_of, write_back, get_and_update, normalize, checked,
}

-- A session that is valid, under the address of its aircraft.
pub record IsSound (k : Text) (x : CpdlcSession) : Type 0 where
  pub valid : IsValid x
  pub keyed : x.aircraft.address ≡ k

-- A call that keeps the invariant and the aircraft.
pub record Keeps (call : CpdlcSession → CpdlcSession × Done) : Type 0 where
  pub keeps_valid : (x : CpdlcSession) → IsValid x → IsValid (call x).0
  pub keeps_aircraft : (x : CpdlcSession) → (call x).0.aircraft ≡ x.aircraft

pub logon_request-Keeps : (e : AcarsRoutingEndpoint) → Keeps (Session.logon_request e)
unfolding Session.logon_request
logon_request-Keeps e = record {
  keeps_valid = logon_request-IsValid e;
  keeps_aircraft = λ x. ground arith;
}

pub logon_accepted-Keeps : (c : AcarsEndpointCallsign) → Keeps (Session.logon_accepted c)
unfolding Session.logon_accepted
logon_accepted-Keeps c = record {
  keeps_valid = logon_accepted-IsValid c;
  keeps_aircraft = λ x. ground arith;
}

pub connection_request-Keeps : (c : AcarsEndpointCallsign) → Keeps (Session.connection_request c)
unfolding Session.connection_request
connection_request-Keeps c = record {
  keeps_valid = connection_request-IsValid c;
  keeps_aircraft = λ x. ground arith;
}

pub connection_accepted-Keeps : (c : AcarsEndpointCallsign) → Keeps (Session.connection_accepted c)
unfolding Session.connection_accepted
connection_accepted-Keeps c = record {
  keeps_valid = connection_accepted-IsValid c;
  keeps_aircraft = λ x. ground arith;
}

next_data_authority-Keeps : (e : AcarsRoutingEndpoint) → Keeps (Session.next_data_authority e)
unfolding Session.next_data_authority
next_data_authority-Keeps e = record {
  keeps_valid = next_data_authority-IsValid e;
  keeps_aircraft = λ x. refl;
}

pub termination_request-Keeps : (c : AcarsEndpointCallsign) → Keeps (Session.termination_request c)
unfolding Session.termination_request
termination_request-Keeps c = record {
  keeps_valid = termination_request-IsValid c;
  keeps_aircraft = λ x. ground arith;
}

module _ (k : Text) where
  proceed-OnOk : (p : CpdlcSession × Done) → IsSound k p.0 → OnOk (IsSound k) (proceed p)
  proceed-OnOk (x, ok _) h = h
  proceed-OnOk (x, err e) h = tt

  pub call-OnOk :
      (call : CpdlcSession → CpdlcSession × Done)
      → Keeps call
      → (x : CpdlcSession) → IsSound k x
      → OnOk (IsSound k) (proceed (call x))
  call-OnOk call keeps x h =
      proceed-OnOk (call x) (record {
        valid = keeps.keeps_valid x h.valid;
        keyed = rw (keeps.keeps_aircraft x) h.keyed;
      })

  designate-OnOk :
      (o : Option CpdlcArgument) (x : CpdlcSession) → IsSound k x → OnOk (IsSound k) (designate o x)
  designate-OnOk (some (CpdlcArgument.facility_designation f)) x h =
      call-OnOk (Session.next_data_authority (bare_endpoint f))
        (next_data_authority-Keeps (bare_endpoint f)) x h
  designate-OnOk _ x h = h

  manage_element-OnOk :
      (source : AcarsEndpointCallsign) (e : MessageElement) (x : CpdlcSession)
      → IsSound k x
      → OnOk (IsSound k) (manage_element source e x)
  unfolding manage_element
  manage_element-OnOk source e x h = elim (Bool-cases (e.id =t text "UM160")) [
    | inl p ↦ rw p (designate-OnOk (head? e.args) x h)
    | inr p ↦ elim (Bool-cases (e.id =t text "UM161")) [
      | inl q ↦
          rw (p, q)
            (call-OnOk (Session.termination_request source) (termination_request-Keeps source) x h)
      | inr q ↦ rw (p, q) h
    ]
  ]

  manage-OnOk :
      (source : AcarsEndpointCallsign) (es : List MessageElement) (x : CpdlcSession)
      → IsSound k x
      → OnOk (IsSound k) (manage source es x)
  unfolding manage
  manage-OnOk source [] x h = h
  manage-OnOk source (e ∷ es) x h =
      OnOk-bind (IsSound k) (manage_element source e x) (manage source es)
        (manage_element-OnOk source e x h) (manage-OnOk source es)

-- What the closures hand over: a session that is sound, or none.
abbrev pub IsSoundUpdate : {A : Type 0} → Text → Option CpdlcSession × A → Type 0
IsSoundUpdate k u = OnSome (IsSound k) u.0

pub application_update-OnOk :
    (k : Text) (source : AcarsEndpointCallsign) (msg : CpdlcApplicationMessage)
    (found : Option CpdlcSession)
    → OnSome (IsSound k) found
    → OnOk (IsSoundUpdate k) (application_update source msg found)
unfolding application_update
application_update-OnOk k source msg none h = tt
application_update-OnOk k source msg (some x) h = checked_slot x.active_connection
  where
    managed :
        OnOk
          (IsSoundUpdate k)
          (manage source (normalize msg).elements x >>= λ t. ok (some t, normalize msg))
    managed =
        OnOk-bind (IsSoundUpdate k) (manage source (normalize msg).elements x)
          (λ t. ok (some t, normalize msg)) (manage-OnOk k source (normalize msg).elements x h)
          (λ t p. p)

    checked_slot :
        (slot : Option CpdlcConnection)
        → OnOk (IsSoundUpdate k) (checked source (normalize msg) x slot)
    checked_slot none = tt
    checked_slot (some c) = elim (Bool-cases (ready_exchange c)) [
      | inl p ↦ elim (Bool-cases (leb 1 (normalize msg).min && leb (normalize msg).min 63)) [
        | inl q ↦ rw (p, q) managed
        | inr q ↦ rw (p, q) tt
      ]
      | inr p ↦ rw p tt
    ]

pub session_update_of-OnOk :
    (aircraft : AcarsRoutingEndpoint) (call : CpdlcSession → CpdlcSession × Done)
    (found : Option CpdlcSession)
    → Keeps call
    → OnSome (IsSound aircraft.address) found
    → OnOk (IsSoundUpdate aircraft.address) (session_update_of aircraft call found)
unfolding session_update_of
session_update_of-OnOk aircraft call found keeps h =
    OnOk-bind (IsSoundUpdate aircraft.address)
      (proceed (call (unwrap_or (new_session aircraft) found))) (λ t. ok (some t, tt))
      (call-OnOk aircraft.address call keeps _ (start found h)) (λ t p. p)
  where
    start :
        (o : Option CpdlcSession)
        → OnSome (IsSound aircraft.address) o
        → IsSound aircraft.address (unwrap_or (new_session aircraft) o)
    start none p = record { valid = new_session-IsValid aircraft; keyed = refl }
    start (some x) p = p

module _ {S : Type 0} (kv : Kv S CpdlcSession) where
  -- Every stored session is sound.
  abbrev pub AllSound : S → Type 0
  AllSound s = (k : Text) → OnSome (IsSound k) (kv.view s k)

  after_write :
      (s s' : S) (id : Text) (o : Option CpdlcSession)
      → OnSome (IsSound id) o
      → ((j : Text) → (kv.view s' j ≡ kv.view s j) ⊎ (kv.view s' j ≡ written (kv.view s) id o j))
      → AllSound s
      → AllSound s'
  after_write s s' id o fits wrote h k = elim (wrote k) [
    | inl same ↦ rw same (h k)
    | inr new ↦ elim (Bool-cases (id =t k)) [
      | inl p ↦ rw (new, p) (rw (← (=t_iff id k).0 p) fits)
      | inr p ↦ rw (new, p) (h k)
    ]
  ]

  write_back-AllSound :
      {A : Type 0} (id : Text) (revision : ℕ) (r : Result (Option CpdlcSession × A)) (s : S)
      → OnOk (IsSoundUpdate id) r
      → AllSound s
      → AllSound (write_back kv id revision r s).0
  unfolding write_back
  write_back-AllSound id revision (err e) s fits h = h
  write_back-AllSound id revision (ok (some t, a)) s fits h =
      after_write s (kv.update id t revision s).0 id (some t) fits
        (λ j. kv.update_any id t revision s j) h
  write_back-AllSound id revision (ok (none, a)) s fits h =
      after_write s (kv.delete id s).0 id none tt (λ j. kv.delete_any id s j) h

  pub get_and_update-AllSound :
      {A : Type 0} (aircraft : AcarsRoutingEndpoint)
      (update_fn : Option CpdlcSession → Result (Option CpdlcSession × A)) (s : S)
      → ((found : Option CpdlcSession)
          → OnSome (IsSound aircraft.address) found
          → OnOk (IsSoundUpdate aircraft.address) (update_fn found))
      → AllSound s
      → AllSound (get_and_update kv aircraft update_fn s).0
  unfolding get_and_update
  get_and_update-AllSound aircraft update_fn s fits h = read (kv.entry s aircraft.address) refl
    where
      read :
          (r : Result (Option (Entry CpdlcSession)))
          → kv.entry s aircraft.address ≡ r
          → AllSound (get_and_update kv aircraft update_fn s).0
      read (err e) p = rw (p, get_and_update) h
      read (ok found) p =
          rw (p, get_and_update)
            (write_back-AllSound aircraft.address (revision_of found) (update_fn (value_of found)) s
              (fits (value_of found)
                (rw (kv.entry-view s aircraft.address found p) (h aircraft.address)))
              h)
