-- ===== src/Server/Termination/Gone.antt =====
-- crates/openlink-server/src/acars.rs: what the termination of one session leaves of a station.
use openlink.Prelude.{
  ◌≡◌, refl, inl, inr, Bool, false, ◌&&◌, Option, none, some, OnSome, OnOk, OnOk-bind, Done, ok,
  err, arith, Bool-cases,
}
use openlink.Models.Endpoint.{AcarsEndpointCallsign}
use openlink.Server.Session
use openlink.Server.Session.{CpdlcSession, holds}
use openlink.Server.Session.Slots.{holds-termination_request}
use openlink.Server.Handler.{proceed}
use openlink.Server.Termination.{serves, terminate_update}

-- The station holds both slots of the session.
abbrev pub twice : AcarsEndpointCallsign → CpdlcSession → Bool
twice station x = holds station x.active_connection && holds station x.inactive_connection

-- The stored session, if there is one, does not serve the station; it does not hold it twice.
abbrev pub IsGone : AcarsEndpointCallsign → Option CpdlcSession → Type 0
IsGone station found = OnSome (λ (x : CpdlcSession). serves station x ≡ false) found

abbrev pub IsOnce : AcarsEndpointCallsign → Option CpdlcSession → Type 0
IsOnce station found = OnSome (λ (x : CpdlcSession). twice station x ≡ false) found

proceed-OnOk : (P : CpdlcSession → Type 0) (p : CpdlcSession × Done) → P p.0 → OnOk P (proceed p)
proceed-OnOk P (x, ok _) h = h
proceed-OnOk P (x, err e) h = tt

terminate_update-OnOk :
    (station : AcarsEndpointCallsign) (found : Option CpdlcSession)
    → IsOnce station found
    → OnOk
        (λ (u : Option CpdlcSession × Unit {0}). IsGone station u.0)
        (terminate_update station found)
unfolding terminate_update
terminate_update-OnOk station none once = tt
terminate_update-OnOk station (some x) once = elim (Bool-cases (serves station x)) [
  | inl p ↦
      let (a, i) = holds-termination_request station x in
      let gone : serves station (Session.termination_request station x).0 ≡ false =
        rw (a, i) (rw once refl) in
      rw p (
        OnOk-bind (λ (u : Option CpdlcSession × Unit {0}). IsGone station u.0)
          (proceed (Session.termination_request station x)) (λ t. ok (some t, tt))
          (proceed-OnOk (λ t. serves station t ≡ false) (Session.termination_request station x)
            gone)
          (λ t h. h))
  | inr p ↦ rw p p
]

pub terminate_update-IsGone :
    (station : AcarsEndpointCallsign) (found : Option CpdlcSession)
    (u : Option CpdlcSession × Unit {0})
    → IsOnce station found
    → terminate_update station found ≡ ok u
    → IsGone station u.0
terminate_update-IsGone station found u once h =
    let r = terminate_update-OnOk station found once in rw h at r

pub IsGone-IsOnce :
    (station : AcarsEndpointCallsign) (found : Option CpdlcSession)
    → IsGone station found
    → IsOnce station found
IsGone-IsOnce station none h = tt
IsGone-IsOnce station (some x) h = ground arith
