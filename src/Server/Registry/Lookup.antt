-- ===== src/Server/Registry/Lookup.antt =====
-- crates/openlink-server/src/station_registry.rs: finding a station by its callsign.
use openlink.Prelude.{
  ℕ, ◌≡◌, refl, ◌∙◌, Text, Option, none, some, to_uppercase, =t_refl, Result, ok, err, Done,
  bind_succeeds,
}
use openlink.Models.Endpoint.{
  AcarsEndpointCallsign, AcarsRoutingEndpoint, NetworkAddress, StationId, StationStatus, online,
  offline,
}
use openlink.Server.Kv.{Kv, written}
use openlink.Server.Registry.{
  StationEntry, CallsignIndexEntry, callsign_index_key, Stores, follow, lookup_callsign, drop_stale,
  index_callsign, registered, update_found, update_status,
}

-- The entry that an update writes.
abbrev pub entry_of :
    StationId → StationStatus → AcarsRoutingEndpoint → NetworkAddress → ℕ → StationEntry
entry_of station_id status endpoint address now = record {
  station_id = station_id;
  status = status;
  last_updated = now;
  network_address = address;
  acars_endpoint = endpoint;
}

module _ {R I : Type 0} (kv_registry : Kv R StationEntry) (kv_index : Kv I CallsignIndexEntry) where
  registered-registry :
      (station_id : StationId) (status : StationStatus) (endpoint : AcarsRoutingEndpoint) (i : I)
      (p : R × Done)
      → (registered kv_registry kv_index station_id status endpoint i p).1 ≡ ok tt
      → (p.1 ≡ ok tt)
        × ((registered kv_registry kv_index station_id status endpoint i p).0.registry ≡ p.0)
  unfolding registered
  registered-registry station_id status endpoint i (r, err e) h = cc
  registered-registry station_id status endpoint i (r, ok u) h = (refl, refl)

  registered-index :
      (station_id : StationId) (endpoint : AcarsRoutingEndpoint) (i : I) (p : R × Done)
      → (registered kv_registry kv_index station_id online endpoint i p).1 ≡ ok tt
      → kv_index.view
          (registered kv_registry kv_index station_id online endpoint i p).0.index
          (callsign_index_key endpoint.callsign)
        ≡ some (record { station_id = station_id })
  unfolding index_callsign
  registered-index station_id endpoint i (r, err e) h = cc
  registered-index station_id endpoint i (r, ok u) h =
      rw
        (kv_index.put_done (callsign_index_key endpoint.callsign)
          (record { station_id = station_id }) i (callsign_index_key endpoint.callsign) h)
        (rw (=t_refl (callsign_index_key endpoint.callsign)) refl)

  registered-removed :
      (station_id : StationId) (endpoint : AcarsRoutingEndpoint) (i : I) (p : R × Done)
      → (kv_index.delete (callsign_index_key endpoint.callsign) i).1 ≡ ok tt
      → (registered kv_registry kv_index station_id offline endpoint i p).1 ≡ ok tt
      → kv_index.view
          (registered kv_registry kv_index station_id offline endpoint i p).0.index
          (callsign_index_key endpoint.callsign)
        ≡ none
  unfolding index_callsign
  registered-removed station_id endpoint i (r, err e) d h = cc
  registered-removed station_id endpoint i (r, ok u) d h =
      rw
        (kv_index.delete_done (callsign_index_key endpoint.callsign) i
          (callsign_index_key endpoint.callsign) d)
        (rw (=t_refl (callsign_index_key endpoint.callsign)) refl)

  update_found-registry :
      (found : Result (Option StationEntry)) (station_id : StationId) (status : StationStatus)
      (endpoint : AcarsRoutingEndpoint) (address : NetworkAddress) (now : ℕ) (s : Stores R I)
      (k : Text)
      → (update_found kv_registry kv_index found station_id status endpoint address now s).1 ≡ ok tt
      → kv_registry.view
          (update_found kv_registry kv_index found station_id status endpoint address now
            s).0.registry
          k
        ≡ written
            (kv_registry.view s.registry)
            station_id
            (some (entry_of station_id status endpoint address now))
            k
  unfolding update_found
  update_found-registry (err e) station_id status endpoint address now s k h = cc
  update_found-registry (ok o) station_id status endpoint address now s k h =
      let entry = entry_of station_id status endpoint address now in
      let (done, same) =
        registered-registry station_id status endpoint
          (drop_stale kv_registry kv_index o endpoint s.index)
          (kv_registry.put station_id entry s.registry) h in
      rw same (kv_registry.put_done station_id entry s.registry k done)

  -- What a successful update makes of the registry.
  pub update_status-registry :
      (station_id : StationId) (status : StationStatus) (endpoint : AcarsRoutingEndpoint)
      (address : NetworkAddress) (now : ℕ) (s : Stores R I) (k : Text)
      → (update_status kv_registry kv_index station_id status endpoint address now s).1 ≡ ok tt
      → kv_registry.view
          (update_status kv_registry kv_index station_id status endpoint address now s).0.registry
          k
        ≡ written
            (kv_registry.view s.registry)
            station_id
            (some (entry_of station_id status endpoint address now))
            k
  unfolding update_status
  update_status-registry station_id status endpoint address now s k =
      update_found-registry (kv_registry.get s.registry station_id) station_id status endpoint
        address now s k

  update_found-index :
      (found : Result (Option StationEntry)) (station_id : StationId)
      (endpoint : AcarsRoutingEndpoint) (address : NetworkAddress) (now : ℕ) (s : Stores R I)
      → (update_found kv_registry kv_index found station_id online endpoint address now s).1 ≡ ok tt
      → kv_index.view
          (update_found kv_registry kv_index found station_id online endpoint address now s).0.index
          (callsign_index_key endpoint.callsign)
        ≡ some (record { station_id = station_id })
  unfolding update_found
  update_found-index (err e) station_id endpoint address now s h = cc
  update_found-index (ok o) station_id endpoint address now s h =
      registered-index station_id endpoint (drop_stale kv_registry kv_index o endpoint s.index) _ h

  update_found-removed :
      (found : Result (Option StationEntry)) (station_id : StationId)
      (endpoint : AcarsRoutingEndpoint) (address : NetworkAddress) (now : ℕ) (s : Stores R I)
      → ((i : I) → (kv_index.delete (callsign_index_key endpoint.callsign) i).1 ≡ ok tt)
      → (update_found kv_registry kv_index found station_id offline endpoint address now s).1
        ≡ ok tt
      → kv_index.view
          (update_found kv_registry kv_index found station_id offline endpoint address now
            s).0.index
          (callsign_index_key endpoint.callsign)
        ≡ none
  unfolding update_found
  update_found-removed (err e) station_id endpoint address now s d h = cc
  update_found-removed (ok o) station_id endpoint address now s d h =
      registered-removed station_id endpoint (drop_stale kv_registry kv_index o endpoint s.index) _
        (d _) h

  -- What a successful lookup finds, by the values that the buckets hold.
  lookup-found :
      (s : Stores R I) (callsign : AcarsEndpointCallsign) (e : CallsignIndexEntry)
      (o : Option StationEntry)
      → kv_index.view s.index (callsign_index_key callsign) ≡ some e
      → lookup_callsign kv_registry kv_index callsign s ≡ ok o
      → o ≡ kv_registry.view s.registry e.station_id
  unfolding lookup_callsign follow
  lookup-found s callsign e o v h =
      let (f, g, p) = bind_succeeds _ _ o h in
      let f' : f ≡ some e = kv_index.get-view s.index (callsign_index_key callsign) f g ∙ v in
      kv_registry.get-view s.registry e.station_id o (rw f' at p)

  lookup-none :
      (s : Stores R I) (callsign : AcarsEndpointCallsign) (o : Option StationEntry)
      → kv_index.view s.index (callsign_index_key callsign) ≡ none
      → lookup_callsign kv_registry kv_index callsign s ≡ ok o
      → o ≡ none
  unfolding lookup_callsign follow
  lookup-none s callsign o v h =
      let (f, g, p) = bind_succeeds _ _ o h in
      let f' : f ≡ none = kv_index.get-view s.index (callsign_index_key callsign) f g ∙ v in
      let q = rw f' at p in cc

  -- A station whose status was set to online without a failure is found by its callsign in any
  -- mixture of upper and lower case, with the endpoint, the address and the time of that update, if
  -- the lookup reads without a failure.
  pub lookup_callsign-online :
      (station_id : StationId) (endpoint : AcarsRoutingEndpoint) (address : NetworkAddress)
      (now : ℕ) (s : Stores R I) (callsign : AcarsEndpointCallsign) (o : Option StationEntry)
      → (update_status kv_registry kv_index station_id online endpoint address now s).1 ≡ ok tt
      → to_uppercase callsign ≡ to_uppercase endpoint.callsign
      → lookup_callsign kv_registry kv_index callsign
          (update_status kv_registry kv_index station_id online endpoint address now s).0
        ≡ ok o
      → o ≡ some (entry_of station_id online endpoint address now)
  unfolding callsign_index_key
  lookup_callsign-online station_id endpoint address now s callsign o h u l =
      let t = (update_status kv_registry kv_index station_id online endpoint address now s).0 in
      let v : kv_index.view t.index (callsign_index_key callsign)
          ≡ some (record { station_id = station_id }) =
        rw u (unfold update_status in update_found-index _ station_id endpoint address now s h) in
      lookup-found t callsign (record { station_id = station_id }) o v l
      ∙ (update_status-registry station_id online endpoint address now s station_id h
          ∙ rw (=t_refl station_id) refl)

  -- Once a station has gone offline without a failure, no station is found by its callsign, if the
  -- index deletes and the lookup reads without a failure: whichever station the index named for
  -- that callsign before, and whether or not that one is still online.
  pub lookup_callsign-offline :
      (station_id : StationId) (endpoint : AcarsRoutingEndpoint) (address : NetworkAddress)
      (now : ℕ) (s : Stores R I) (callsign : AcarsEndpointCallsign) (o : Option StationEntry)
      → ((i : I) → (kv_index.delete (callsign_index_key endpoint.callsign) i).1 ≡ ok tt)
      → (update_status kv_registry kv_index station_id offline endpoint address now s).1 ≡ ok tt
      → to_uppercase callsign ≡ to_uppercase endpoint.callsign
      → lookup_callsign kv_registry kv_index callsign
          (update_status kv_registry kv_index station_id offline endpoint address now s).0
        ≡ ok o
      → o ≡ none
  unfolding callsign_index_key
  lookup_callsign-offline station_id endpoint address now s callsign o d h u l =
      let t = (update_status kv_registry kv_index station_id offline endpoint address now s).0 in
      let v : kv_index.view t.index (callsign_index_key callsign) ≡ none =
        rw u
          (unfold update_status in update_found-removed _ station_id endpoint address now s d h) in
      lookup-none t callsign o v l
