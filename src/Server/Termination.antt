-- ===== src/Server/Termination.antt =====
-- crates/openlink-server/src/acars.rs: `list_sessions_for_callsign` and
-- `terminate_sessions_for_station` of `CPDLCServer`.
pub mod Gone
pub mod Complete
use openlink.Prelude.{
  Text, Bool, true, false, not, ◌||◌, Option, none, some, List, [], ◌∷◌, Result, ok, err, ◌>>=◌,
  if◌then◌else◌,
}
use openlink.Models.Endpoint.{AcarsEndpointCallsign}
use openlink.Server.Session
use openlink.Server.Session.{CpdlcConnection, CpdlcSession, holds}
use openlink.Server.Kv.{Kv}
use openlink.Server.Handler.{proceed, is_relevant, get_and_update}

-- `was_relevant` and `still_relevant`: a connection of the session is with the station.
abbrev pub serves : AcarsEndpointCallsign → CpdlcSession → Bool
serves station x = holds station x.active_connection || holds station x.inactive_connection

-- The closure that updates a session.
unfoldable pub terminate_update :
    AcarsEndpointCallsign → Option CpdlcSession → Result (Option CpdlcSession × Unit {0})
terminate_update station none = ok (none, tt)
terminate_update station (some x) =
    if not (serves station x)
    then ok (some x, tt)
    else (proceed (Session.termination_request station x) >>= λ t. ok (some t, tt))

module _ {S : Type 0} (kv : Kv S CpdlcSession) where
  abbrev pub add_relevant :
      AcarsEndpointCallsign → Option CpdlcSession → List CpdlcSession → List CpdlcSession
  unfolding is_relevant
  add_relevant callsign none rest = rest
  add_relevant callsign (some x) rest = if is_relevant callsign x then x ∷ rest else rest

  -- The loop over the keys.
  unfoldable pub list_relevant : AcarsEndpointCallsign → List Text → S → Result (List CpdlcSession)
  list_relevant callsign [] s = ok []
  list_relevant callsign (k ∷ ks) s =
      let rest = list_relevant callsign ks s in
      kv.get s k >>= λ found. rest >>= λ sessions. ok (add_relevant callsign found sessions)

  unfoldable pub list_sessions_for_callsign : AcarsEndpointCallsign → S → Result (List CpdlcSession)
  unfolding list_relevant
  list_sessions_for_callsign callsign s = kv.keys s >>= λ ks. list_relevant callsign ks s

  -- An updated session is returned if the station has no connection left in it.
  abbrev pub add_updated :
      AcarsEndpointCallsign → Option CpdlcSession → List CpdlcSession → List CpdlcSession
  add_updated station none rest = rest
  add_updated station (some x) rest = if not (serves station x) then x ∷ rest else rest

  abbrev pub after_update :
      AcarsEndpointCallsign
      → (S → S × Result (List CpdlcSession))
      → S × Result (Option CpdlcSession × Unit {0})
      → S × Result (List CpdlcSession)
  after_update station continue (s, err e) = (s, err e)
  after_update station continue (s, ok u) =
      let (s', rest) = continue s in
      (s', rest >>= λ sessions. ok (add_updated station u.0 sessions))

  -- The loop over the sessions.
  unfoldable pub terminate_all :
      AcarsEndpointCallsign → List CpdlcSession → S → S × Result (List CpdlcSession)
  terminate_all station [] s = (s, ok [])
  terminate_all station (x ∷ xs) s =
      after_update station (terminate_all station xs)
        (get_and_update kv x.aircraft (terminate_update station) s)

  unfoldable pub terminate_listed :
      AcarsEndpointCallsign → Result (List CpdlcSession) → S → S × Result (List CpdlcSession)
  unfolding terminate_all
  terminate_listed station (err e) s = (s, err e)
  terminate_listed station (ok xs) s = terminate_all station xs s

  unfoldable pub terminate_sessions_for_station :
      AcarsEndpointCallsign → S → S × Result (List CpdlcSession)
  unfolding terminate_listed list_sessions_for_callsign
  terminate_sessions_for_station station s =
      terminate_listed station (list_sessions_for_callsign station s) s
