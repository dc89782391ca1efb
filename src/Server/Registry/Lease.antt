-- ===== src/Server/Registry/Lease.antt =====
-- crates/openlink-server/src/station_registry.rs: the leases of the stations.
use mathlib.Core.Bool.{false≢true}
use mathlib.Core.List.{Memᴰ}
use openlink.Prelude.{
  ℕ, ◌≡◌, refl, sym, ◌∙◌, ◌⊎◌, inl, inr, Text, true, false, Option, none, some, List, [], ◌∷◌, ◌=t◌,
  =t_iff, OnSome, Result, ok, err, Done, bind_succeeds, ◌>>=◌, Bool-cases, Option-cases,
}
use openlink.Models.Endpoint.{offline}
use openlink.Server.Kv.{Kv, written}
use openlink.Server.Registry.{
  StationEntry, CallsignIndexEntry, Stores, update_status, add_entry, collect, list_entries,
  is_stale, after_expiry, expire, expire_listed, expire_stale_online,
}
use openlink.Server.Registry.Lookup.{entry_of, update_status-registry}

-- The entry, if there is one, is not online behind the end of its lease.
abbrev pub IsFresh : ℕ → ℕ → Option StationEntry → Type 0
IsFresh ttl now found = OnSome (λ (e : StationEntry). is_stale ttl now e ≡ false) found

head_or_tail : (e f : StationEntry) (es : List StationEntry) → Memᴰ e (f ∷ es) → (e ≡ f) ⊎ Memᴰ e es
head_or_tail e f es (Memᴰ.head p) = inl p
head_or_tail e f es (Memᴰ.tail m) = inr m

module _ {R I : Type 0} (kv_registry : Kv R StationEntry) (kv_index : Kv I CallsignIndexEntry) where
  -- Every entry stands under its station.
  abbrev pub IsKeyed : R → Type 0
  IsKeyed r = (k : Text) → OnSome (λ (e : StationEntry). e.station_id ≡ k) (kv_registry.view r k)

  add_entry-listed :
      (found : Option StationEntry) (rest es : List StationEntry) (e : StationEntry)
      → ◌≡◌ {A = Result (List StationEntry)}
          (ok (add_entry kv_registry kv_index found rest))
          (ok es)
      → Memᴰ e rest
      → Memᴰ e es
  add_entry-listed none rest es e h m = let same : rest ≡ es = cc in rw (← same) m
  add_entry-listed (some f) rest es e h m =
      let same : (f ∷ rest) ≡ es = cc in rw (← same) (Memᴰ.tail m)

  collect-cons :
      (j : Text) (ks : List Text) (r : R) (es : List StationEntry)
      → collect kv_registry kv_index (j ∷ ks) r ≡ ok es
      → (found : Option StationEntry) × (kv_registry.get r j ≡ ok found)
        × (rest : List StationEntry) × (collect kv_registry kv_index ks r ≡ ok rest)
        × ◌≡◌ {A = Result (List StationEntry)}
            (ok (add_entry kv_registry kv_index found rest))
            (ok es)
  unfolding collect
  collect-cons j ks r es h =
      let (found, g, q) =
        bind_succeeds (kv_registry.get r j)
          (λ found. collect kv_registry kv_index ks r >>= λ entries.
            ok (add_entry kv_registry kv_index found entries))
          es h in
      let (rest, c, w) =
        bind_succeeds (collect kv_registry kv_index ks r)
          (λ entries. ok (add_entry kv_registry kv_index found entries)) es q in
      (found, g, rest, c, w)

  collect-listed :
      (ks : List Text) (r : R) (es : List StationEntry) (k : Text) (e : StationEntry)
      → collect kv_registry kv_index ks r ≡ ok es
      → Memᴰ k ks
      → kv_registry.view r k ≡ some e
      → Memᴰ e es
  collect-listed [] r es k e h m v = elim m [ ]
  collect-listed (j ∷ ks) r es k e h (Memᴰ.head p) v =
      let (found, g, rest, c, w') = collect-cons j ks r es h in
      let found_e : found ≡ some e = kv_registry.get-view r j found g ∙ rw p at v in
      let w'' : ◌≡◌ {A = Result (List StationEntry)} (ok (e ∷ rest)) (ok es) = rw found_e at w' in
      let same : (e ∷ rest) ≡ es = cc in rw (← same) (Memᴰ.head refl)
  collect-listed (j ∷ ks) r es k e h (Memᴰ.tail m) v =
      let (found, g, rest, c, w') = collect-cons j ks r es h in
      add_entry-listed found rest es e w' (collect-listed ks r rest k e c m v)

  after_expiry-succeeds :
      (e : StationEntry) (continue : Stores R I → Stores R I × Result (List StationEntry))
      (u : Stores R I × Done) (o : List StationEntry)
      → (after_expiry kv_registry kv_index e continue u).1 ≡ ok o
      → (u.1 ≡ ok tt)
        × (rest : List StationEntry) × ((continue u.0).1 ≡ ok rest)
        × ((after_expiry kv_registry kv_index e continue u).0 ≡ (continue u.0).0)
  after_expiry-succeeds e continue (s, err p) o h = cc
  after_expiry-succeeds e continue (s, ok _) o h =
      let (rest, q, _) = bind_succeeds _ _ o h in (refl, rest, q, refl)

  module _ (ttl now : ℕ) where
    -- The entry of a station is fresh, or it is still to be expired.
    abbrev Pending : List StationEntry → Stores R I → Text → Type 0
    Pending es s k =
        IsFresh ttl now (kv_registry.view s.registry k)
        ⊎ ((e : StationEntry) × Memᴰ e es × (e.station_id ≡ k) × (is_stale ttl now e ≡ true))

    update-Pending :
        (f : StationEntry) (es : List StationEntry) (s : Stores R I) (k : Text)
        → (update_status kv_registry kv_index f.station_id offline f.acars_endpoint
            f.network_address now s).1
          ≡ ok tt
        → Pending (f ∷ es) s k
        → Pending es
            (update_status kv_registry kv_index f.station_id offline f.acars_endpoint
              f.network_address now s).0
            k
    update-Pending f es s k h p = elim (Bool-cases (f.station_id =t k)) [
      | inl same ↦ inl (rw (view_of, same) refl)
      | inr other ↦ elim p [
        | inl fresh ↦ inl (rw (view_of, other) fresh)
        | inr (e, m, keyed, stale) ↦ elim (head_or_tail e f es m) [
          | inl q ↦ absurd (false≢true (sym other ∙ (=t_iff f.station_id k).1 (rw (← q) keyed)))
          | inr n ↦ inr (e, n, keyed, stale)
        ]
      ]
    ]
      where
        view_of :
            kv_registry.view
              (update_status kv_registry kv_index f.station_id offline f.acars_endpoint
                f.network_address now s).0.registry
              k
            ≡ written
                (kv_registry.view s.registry)
                f.station_id
                (some (entry_of f.station_id offline f.acars_endpoint f.network_address now))
                k
        view_of =
            update_status-registry kv_registry kv_index f.station_id offline f.acars_endpoint
              f.network_address now s k h

    skip :
        (f : StationEntry) (es : List StationEntry) (s : Stores R I) (k : Text)
        → is_stale ttl now f ≡ false
        → Pending (f ∷ es) s k
        → Pending es s k
    skip f es s k fresh (inl q) = inl q
    skip f es s k fresh (inr (e, m, keyed, stale)) = elim (head_or_tail e f es m) [
      | inl q ↦ absurd (false≢true (sym fresh ∙ rw (← q) stale))
      | inr n ↦ inr (e, n, keyed, stale)
    ]

    expire-IsFresh :
        (es : List StationEntry) (s : Stores R I) (k : Text) (o : List StationEntry)
        → Pending es s k
        → (expire kv_registry kv_index ttl now es s).1 ≡ ok o
        → IsFresh ttl now (kv_registry.view (expire kv_registry kv_index ttl now es s).0.registry k)
    unfolding expire
    expire-IsFresh [] s k o (inl fresh) h = fresh
    expire-IsFresh [] s k o (inr (e, m, _, _)) h = elim m [ ]
    expire-IsFresh (f ∷ es) s k o p h = elim (Bool-cases (is_stale ttl now f)) [
      | inl stale ↦
          let h' = rw stale at h in
          let (u, rest, c, same) =
            after_expiry-succeeds f (expire kv_registry kv_index ttl now es) _ o h' in
          rw stale (rw same (expire-IsFresh es _ k rest (update-Pending f es s k u p) c))
      | inr fresh ↦ rw fresh (expire-IsFresh es s k o (skip f es s k fresh p) (rw fresh at h))
    ]

    listed-Pending :
        (s : Stores R I) (es : List StationEntry) (k : Text)
        → IsKeyed s.registry
        → list_entries kv_registry kv_index s ≡ ok es
        → Pending es s k
    unfolding list_entries
    listed-Pending s es k keyed h = elim (Option-cases (kv_registry.view s.registry k)) [
      | inl missing ↦ inl (rw missing tt)
      | inr (e, found) ↦ elim (Bool-cases (is_stale ttl now e)) [
        | inl stale ↦
            let (ks, q, c) = bind_succeeds _ _ es h in
            let m = kv_registry.keys-view s.registry ks k e q found in
            let keyed_k : OnSome (λ (e : StationEntry). e.station_id ≡ k)
                (kv_registry.view s.registry k) =
              keyed k in
            let keyed_at : e.station_id ≡ k = rw found at keyed_k in
            inr (e, collect-listed ks s.registry es k e c m found, keyed_at, stale)
        | inr fresh ↦ inl (rw found fresh)
      ]
    ]

    listed-IsFresh :
        (r : Result (List StationEntry)) (s : Stores R I) (k : Text) (o : List StationEntry)
        → ((es : List StationEntry) → r ≡ ok es → Pending es s k)
        → (expire_listed kv_registry kv_index ttl now r s).1 ≡ ok o
        → IsFresh ttl now
            (kv_registry.view (expire_listed kv_registry kv_index ttl now r s).0.registry k)
    unfolding expire_listed
    listed-IsFresh (err e) s k o p h = cc
    listed-IsFresh (ok es) s k o p h = expire-IsFresh es s k o (p es refl) h

    -- If every entry stands under its station, then after a sweep that succeeds no entry of the
    -- registry is online behind the end of its lease, whatever keys the bucket lists besides.
    pub expire_stale_online-IsFresh :
        (s : Stores R I) (o : List StationEntry) (k : Text)
        → IsKeyed s.registry
        → (expire_stale_online kv_registry kv_index ttl now s).1 ≡ ok o
        → IsFresh ttl now
            (kv_registry.view (expire_stale_online kv_registry kv_index ttl now s).0.registry k)
    unfolding expire_stale_online
    expire_stale_online-IsFresh s o k keyed h =
        listed-IsFresh (list_entries kv_registry kv_index s) s k o
          (λ es p. listed-Pending s es k keyed p) h
