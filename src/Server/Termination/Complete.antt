-- ===== src/Server/Termination/Complete.antt =====
-- crates/openlink-server/src/acars.rs: after a station has gone offline, no session serves it.
use mathlib.Core.Bool.{false≢true}
use mathlib.Core.List.{Memᴰ}
use openlink.Prelude.{
  ◌≡◌, refl, sym, ◌∙◌, ◌⊎◌, inl, inr, Text, true, Option, none, some, List, [], ◌∷◌, ◌=t◌, =t_iff,
  OnSome, Result, ok, err, bind_succeeds, ◌>>=◌, arith, Bool-cases, Option-cases,
}
use openlink.Models.Endpoint.{AcarsEndpointCallsign}
use openlink.Server.Session.{CpdlcSession}
use openlink.Server.Termination.Gone.{IsGone, IsOnce, terminate_update-IsGone, IsGone-IsOnce}
use openlink.Server.Kv.{Kv}
use openlink.Server.Handler.{is_relevant, get_and_update}
use openlink.Server.Handler.Stored.{AllSound, IsSound}
use openlink.Server.Handler.Success.{Updated, get_and_update-Updated}
use openlink.Server.Termination.{
  serves, terminate_update, add_relevant, add_updated, list_relevant, list_sessions_for_callsign,
  after_update, terminate_all, terminate_listed, terminate_sessions_for_station,
}

head_or_tail : (e f : CpdlcSession) (es : List CpdlcSession) → Memᴰ e (f ∷ es) → (e ≡ f) ⊎ Memᴰ e es
head_or_tail e f es (Memᴰ.head p) = inl p
head_or_tail e f es (Memᴰ.tail m) = inr m

module _ {S : Type 0} (kv : Kv S CpdlcSession) (station : AcarsEndpointCallsign) where
  -- The session under a key serves the station no more, or it is still to be updated.
  abbrev Pending : List CpdlcSession → S → Text → Type 0
  Pending xs s k =
      IsOnce station (kv.view s k)
      × (IsGone station (kv.view s k) ⊎ ((x : CpdlcSession) × Memᴰ x xs × (x.aircraft.address ≡ k)))

  update-Pending :
      (x : CpdlcSession) (xs : List CpdlcSession) (s s' : S) (k : Text)
      (u : Option CpdlcSession × Unit {0})
      → Updated kv x.aircraft.address (terminate_update station) s s' u
      → Pending (x ∷ xs) s k
      → Pending xs s' k
  update-Pending x xs s s' k u (ran, wrote) (once, p) =
      elim (Bool-cases (x.aircraft.address =t k)) [
        | inl same ↦
            let at : x.aircraft.address ≡ k = (=t_iff x.aircraft.address k).0 same in
            let once' : IsOnce station (kv.view s x.aircraft.address) = rw at once in
            let gone = terminate_update-IsGone station _ u once' ran in
            let now : kv.view s' k ≡ u.0 = wrote k ∙ rw same refl in
            (rw now (IsGone-IsOnce station u.0 gone), inl (rw now gone))
        | inr other ↦
            let now : kv.view s' k ≡ kv.view s k = wrote k ∙ rw other refl in
            (
              rw now once,
              rw now (elim p [
                | inl gone ↦ inl gone
                | inr (y, m, at) ↦ elim (head_or_tail y x xs m) [
                  | inl q ↦
                      absurd
                        (false≢true (sym other ∙ (=t_iff x.aircraft.address k).1 (rw (← q) at)))
                  | inr n ↦ inr (y, n, at)
                ]
              ]),
            )
      ]

  after_update-succeeds :
      (continue : S → S × Result (List CpdlcSession))
      (r : S × Result (Option CpdlcSession × Unit {0})) (o : List CpdlcSession)
      → (after_update kv station continue r).1 ≡ ok o
      → (u : Option CpdlcSession × Unit {0}) × (r.1 ≡ ok u)
        × (rest : List CpdlcSession) × ((continue r.0).1 ≡ ok rest)
        × ((after_update kv station continue r).0 ≡ (continue r.0).0)
  after_update-succeeds continue (s, err e) o h = cc
  after_update-succeeds continue (s, ok u) o h =
      let (rest, q, _) =
        bind_succeeds (continue s).1 (λ sessions. ok (add_updated kv station u.0 sessions)) o h in
      (u, refl, rest, q, refl)

  terminate_all-IsGone :
      (xs : List CpdlcSession) (s : S) (k : Text) (o : List CpdlcSession)
      → Pending xs s k
      → (terminate_all kv station xs s).1 ≡ ok o
      → IsGone station (kv.view (terminate_all kv station xs s).0 k)
  unfolding terminate_all
  terminate_all-IsGone [] s k o (once, inl gone) h = gone
  terminate_all-IsGone [] s k o (once, inr (x, m, at)) h = elim m [ ]
  terminate_all-IsGone (x ∷ xs) s k o p h =
      let (u, ran, rest, c, same) =
        after_update-succeeds (terminate_all kv station xs)
          (get_and_update kv x.aircraft (terminate_update station) s) o h in
      let updated = get_and_update-Updated kv x.aircraft (terminate_update station) s u ran in
      rw same (terminate_all-IsGone xs _ k rest (update-Pending x xs s _ k u updated p) c)

  add_relevant-listed :
      (found : Option CpdlcSession) (rest xs : List CpdlcSession) (x : CpdlcSession)
      → ◌≡◌ {A = Result (List CpdlcSession)} (ok (add_relevant kv station found rest)) (ok xs)
      → Memᴰ x rest
      → Memᴰ x xs
  unfolding is_relevant
  add_relevant-listed none rest xs x h m = let same : rest ≡ xs = cc in rw (← same) m
  add_relevant-listed (some y) rest xs x h m = elim (Bool-cases (is_relevant station y)) [
    | inl p ↦ let same : (y ∷ rest) ≡ xs = cc (p) in rw (← same) (Memᴰ.tail m)
    | inr p ↦ let same : rest ≡ xs = cc (p) in rw (← same) m
  ]

  list_relevant-cons :
      (j : Text) (ks : List Text) (s : S) (xs : List CpdlcSession)
      → list_relevant kv station (j ∷ ks) s ≡ ok xs
      → (found : Option CpdlcSession) × (kv.get s j ≡ ok found)
        × (rest : List CpdlcSession) × (list_relevant kv station ks s ≡ ok rest)
        × ◌≡◌ {A = Result (List CpdlcSession)} (ok (add_relevant kv station found rest)) (ok xs)
  unfolding list_relevant
  list_relevant-cons j ks s xs h =
      let (found, g, q) =
        bind_succeeds (kv.get s j)
          (λ found. list_relevant kv station ks s >>= λ sessions.
            ok (add_relevant kv station found sessions))
          xs h in
      let (rest, c, w) =
        bind_succeeds (list_relevant kv station ks s)
          (λ sessions. ok (add_relevant kv station found sessions)) xs q in
      (found, g, rest, c, w)

  list_relevant-listed :
      (ks : List Text) (s : S) (xs : List CpdlcSession) (k : Text) (x : CpdlcSession)
      → list_relevant kv station ks s ≡ ok xs
      → Memᴰ k ks
      → kv.view s k ≡ some x
      → serves station x ≡ true
      → Memᴰ x xs
  unfolding is_relevant
  list_relevant-listed [] s xs k x h m v r = elim m [ ]
  list_relevant-listed (j ∷ ks) s xs k x h (Memᴰ.head p) v r =
      let (found, g, rest, c, w) = list_relevant-cons j ks s xs h in
      let found_x : found ≡ some x = kv.get-view s j found g ∙ rw p at v in
      let w' = rw found_x at w in
      let relevant : is_relevant station x ≡ true = ground arith in
      let same : (x ∷ rest) ≡ xs = cc (relevant) in rw (← same) (Memᴰ.head refl)
  list_relevant-listed (j ∷ ks) s xs k x h (Memᴰ.tail m) v r =
      let (found, g, rest, c, w) = list_relevant-cons j ks s xs h in
      add_relevant-listed found rest xs x w (list_relevant-listed ks s rest k x c m v r)

  listed-Pending :
      (s : S) (xs : List CpdlcSession) (k : Text)
      → AllSound kv s
      → IsOnce station (kv.view s k)
      → list_sessions_for_callsign kv station s ≡ ok xs
      → Pending xs s k
  unfolding list_sessions_for_callsign
  listed-Pending s xs k sound once h = elim (Option-cases (kv.view s k)) [
    | inl missing ↦ (once, inl (rw missing tt))
    | inr (x, found) ↦ elim (Bool-cases (serves station x)) [
      | inl p ↦
          let (ks, q, c) = bind_succeeds (kv.keys s) (λ ks. list_relevant kv station ks s) xs h in
          let m = list_relevant-listed ks s xs k x c (kv.keys-view s ks k x q found) found p in
          let sound_k : OnSome (IsSound k) (kv.view s k) = sound k in
          let sound_x : IsSound k x = rw found at sound_k in (once, inr (x, m, sound_x.keyed))
      | inr p ↦ (once, inl (rw found p))
    ]
  ]

  listed-IsGone :
      (r : Result (List CpdlcSession)) (s : S) (k : Text) (o : List CpdlcSession)
      → ((xs : List CpdlcSession) → r ≡ ok xs → Pending xs s k)
      → (terminate_listed kv station r s).1 ≡ ok o
      → IsGone station (kv.view (terminate_listed kv station r s).0 k)
  unfolding terminate_listed
  listed-IsGone (err e) s k o p h = cc
  listed-IsGone (ok xs) s k o p h = terminate_all-IsGone xs s k o (p xs refl) h

  -- If the stored sessions are valid and stand under the addresses of their aircraft, then after the
  -- sessions of a station have been terminated without a failure, no connection of a stored session
  -- is with that station, for every aircraft whose session did not hold the station in both slots.
  pub terminate_sessions_for_station-IsGone :
      (s : S) (o : List CpdlcSession) (k : Text)
      → AllSound kv s
      → IsOnce station (kv.view s k)
      → (terminate_sessions_for_station kv station s).1 ≡ ok o
      → IsGone station (kv.view (terminate_sessions_for_station kv station s).0 k)
  unfolding terminate_sessions_for_station
  terminate_sessions_for_station-IsGone s o k sound once h =
      listed-IsGone (list_sessions_for_callsign kv station s) s k o
        (λ xs p. listed-Pending s xs k sound once p) h
