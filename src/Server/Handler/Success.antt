-- ===== src/Server/Handler/Success.antt =====
-- crates/openlink-server/src/acars.rs: what a successful read and update of a session has done.
use openlink.Prelude.{ℕ, ◌≡◌, refl, Text, Option, none, some, Result, ok, err, bind_succeeds}
use openlink.Models.Endpoint.{AcarsRoutingEndpoint}
use openlink.Server.Session.{CpdlcSession}
use openlink.Server.Kv.{Entry, Kv, written}
use openlink.Server.Handler.{revision_of, value_of, write_back, get_and_update}

module _ {S : Type 0} (kv : Kv S CpdlcSession) {A : Type 0} where
  -- The closure succeeded on the stored value, and what it handed over is stored.
  abbrev pub Updated :
      Text
      → (Option CpdlcSession → Result (Option CpdlcSession × A))
      → S
      → S
      → Option CpdlcSession × A
      → Type 0
  Updated id update_fn s s' u =
      (update_fn (kv.view s id) ≡ ok u) × ((j : Text) → kv.view s' j ≡ written (kv.view s) id u.0 j)

  write_back-written :
      (id : Text) (revision : ℕ) (r : Result (Option CpdlcSession × A)) (s : S)
      (u : Option CpdlcSession × A)
      → (write_back kv id revision r s).1 ≡ ok u
      → (r ≡ ok u)
        × ((j : Text) → kv.view (write_back kv id revision r s).0 j ≡ written (kv.view s) id u.0 j)
  unfolding write_back
  write_back-written id revision (err e) s u h = cc
  write_back-written id revision (ok (some t, a)) s u h =
      let (_, done, same) = bind_succeeds (kv.update id t revision s).1 (λ _. ok (some t, a)) u h in
      (same, λ j. rw (kv.update_done id t revision s j done) (ap_written same j))
    where
      ap_written :
          ◌≡◌ {A = Result (Option CpdlcSession × A)} (ok (some t, a)) (ok u)
          → (j : Text) → written (kv.view s) id (some t) j ≡ written (kv.view s) id u.0 j
      ap_written p j = let q : (some t, a) ≡ u = cc in rw (← q) refl
  write_back-written id revision (ok (none, a)) s u h =
      let (_, done, same) = bind_succeeds (kv.delete id s).1 (λ _. ok (none, a)) u h in
      (same, λ j. rw (kv.delete_done id s j done) (ap_written same j))
    where
      ap_written :
          ◌≡◌ {A = Result (Option CpdlcSession × A)} (ok (none, a)) (ok u)
          → (j : Text) → written (kv.view s) id none j ≡ written (kv.view s) id u.0 j
      ap_written p j = let q : (none, a) ≡ u = cc in rw (← q) refl

  pub get_and_update-Updated :
      (aircraft : AcarsRoutingEndpoint)
      (update_fn : Option CpdlcSession → Result (Option CpdlcSession × A)) (s : S)
      (u : Option CpdlcSession × A)
      → (get_and_update kv aircraft update_fn s).1 ≡ ok u
      → Updated aircraft.address update_fn s (get_and_update kv aircraft update_fn s).0 u
  get_and_update-Updated aircraft update_fn s u = read (kv.entry s aircraft.address) refl
    where
      read :
          (r : Result (Option (Entry CpdlcSession)))
          → kv.entry s aircraft.address ≡ r
          → (get_and_update kv aircraft update_fn s).1 ≡ ok u
          → Updated aircraft.address update_fn s (get_and_update kv aircraft update_fn s).0 u
      read (err e) p = unfold get_and_update in rw (p, get_and_update) (λ h. cc)
      read (ok found) p =
          unfold get_and_update in
          rw (p, get_and_update)
            (λ h.
              let (q, w) =
                write_back-written aircraft.address (revision_of found) (update_fn (value_of found))
                  s u h in
              (rw (kv.entry-view s aircraft.address found p) at q, w))
