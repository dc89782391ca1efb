-- ===== src/Server/Registry.antt =====
-- crates/openlink-server/src/station_registry.rs: `StationRegistry` and its two buckets. The time of
-- day is an argument where the code reads the clock, and a lease is a number of the same unit; the
-- readings of one sweep are taken as one instant. Creating the buckets is left out.
pub mod Lookup
pub mod Lease
use openlink.Prelude.{
  ℕ, ◌+◌, Text, Bool, true, false, not, Option, none, some, List, [], ◌∷◌, leb, ◌=t◌, to_uppercase,
  Result, ok, err, Done, ◌>>=◌, if◌then◌else◌,
}
use openlink.Models.Endpoint.{
  AcarsEndpointCallsign, AcarsRoutingEndpoint, NetworkAddress, StationId, StationStatus, online,
  offline,
}
use openlink.Server.Kv.{Kv}

pub record StationEntry : Type 0 where
  pub station_id : StationId
  pub status : StationStatus
  pub last_updated : ℕ
  pub network_address : NetworkAddress
  pub acars_endpoint : AcarsRoutingEndpoint

pub record CallsignIndexEntry : Type 0 where
  pub station_id : StationId

abbrev pub is_online : StationStatus → Bool
is_online online = true
is_online offline = false

unfoldable pub callsign_index_key : AcarsEndpointCallsign → Text
callsign_index_key callsign = to_uppercase callsign

-- An online entry whose lease has run out.
abbrev pub is_stale : ℕ → ℕ → StationEntry → Bool
is_stale ttl now e = if is_online e.status then not (leb now (e.last_updated + ttl)) else false

-- What the two buckets hold.
pub record Stores (R I : Type 0) : Type 0 where
  pub registry : R
  pub index : I

module _ {R I : Type 0} (kv_registry : Kv R StationEntry) (kv_index : Kv I CallsignIndexEntry) where
  pub get_status : StationId → Stores R I → Result (Option StationEntry)
  get_status station_id s = kv_registry.get s.registry station_id

  unfoldable pub follow : Stores R I → Option CallsignIndexEntry → Result (Option StationEntry)
  follow s none = ok none
  follow s (some e) = kv_registry.get s.registry e.station_id

  unfoldable pub lookup_callsign : AcarsEndpointCallsign → Stores R I → Result (Option StationEntry)
  unfolding follow
  lookup_callsign callsign s = kv_index.get s.index (callsign_index_key callsign) >>= follow s

  -- The index entry of an existing station's former callsign is deleted; a failure of that is ignored.
  unfoldable pub drop_stale : Option StationEntry → AcarsRoutingEndpoint → I → I
  drop_stale none endpoint i = i
  drop_stale (some existing) endpoint i =
      if existing.acars_endpoint.callsign =t endpoint.callsign
      then i
      else (kv_index.delete (callsign_index_key existing.acars_endpoint.callsign) i).0

  -- The index entry of the station's callsign: written for a station that is online, and else
  -- deleted, where a failure is ignored.
  unfoldable pub index_callsign : StationId → StationStatus → AcarsRoutingEndpoint → I → I × Done
  index_callsign station_id online endpoint i =
      kv_index.put (callsign_index_key endpoint.callsign) (record { station_id = station_id }) i
  index_callsign station_id offline endpoint i =
      ((kv_index.delete (callsign_index_key endpoint.callsign) i).0, ok tt)

  abbrev indexed : R → I × Done → Stores R I × Done
  indexed r (i, done) = (record { registry = r; index = i }, done)

  abbrev registered :
      StationId → StationStatus → AcarsRoutingEndpoint → I → R × Done → Stores R I × Done
  unfolding index_callsign
  registered station_id status endpoint i (r, err e) = (record { registry = r; index = i }, err e)
  registered station_id status endpoint i (r, ok _) =
      indexed r (index_callsign station_id status endpoint i)

  -- `update_status` behind the first read.
  unfoldable pub update_found :
      Result (Option StationEntry)
      → StationId
      → StationStatus
      → AcarsRoutingEndpoint
      → NetworkAddress
      → ℕ
      → Stores R I
      → Stores R I × Done
  unfolding drop_stale registered
  update_found (err e) station_id status endpoint address now s = (s, err e)
  update_found (ok existing) station_id status endpoint address now s =
      registered station_id status endpoint (drop_stale existing endpoint s.index) (
        kv_registry.put station_id
          (record {
            station_id = station_id;
            status = status;
            last_updated = now;
            network_address = address;
            acars_endpoint = endpoint;
          })
          s.registry)

  unfoldable pub update_status :
      StationId
      → StationStatus
      → AcarsRoutingEndpoint
      → NetworkAddress
      → ℕ
      → Stores R I
      → Stores R I × Done
  unfolding update_found
  update_status station_id status endpoint address now s =
      update_found (kv_registry.get s.registry station_id) station_id status endpoint address now s

  -- The loop of `list_entries` over the keys.
  abbrev add_entry : Option StationEntry → List StationEntry → List StationEntry
  add_entry none rest = rest
  add_entry (some e) rest = e ∷ rest

  unfoldable pub collect : List Text → R → Result (List StationEntry)
  collect [] r = ok []
  collect (k ∷ ks) r =
      let rest = collect ks r in
      kv_registry.get r k >>= λ found. rest >>= λ entries. ok (add_entry found entries)

  unfoldable pub list_entries : Stores R I → Result (List StationEntry)
  unfolding collect
  list_entries s = kv_registry.keys s.registry >>= λ ks. collect ks s.registry

  -- The loop of `expire_stale_online` over the entries.
  abbrev after_expiry :
      StationEntry
      → (Stores R I → Stores R I × Result (List StationEntry))
      → Stores R I × Done
      → Stores R I × Result (List StationEntry)
  after_expiry e continue (s, err p) = (s, err p)
  after_expiry e continue (s, ok _) =
      let (s', rest) = continue s in (s', rest >>= λ expired. ok (e ∷ expired))

  unfoldable pub expire :
      ℕ → ℕ → List StationEntry → Stores R I → Stores R I × Result (List StationEntry)
  expire ttl now [] s = (s, ok [])
  expire ttl now (e ∷ es) s =
      let continue = expire ttl now es in
      if is_stale ttl now e
      then after_expiry e continue
          (update_status e.station_id offline e.acars_endpoint e.network_address now s)
      else continue s

  unfoldable pub expire_listed :
      ℕ → ℕ → Result (List StationEntry) → Stores R I → Stores R I × Result (List StationEntry)
  unfolding expire
  expire_listed ttl now (err p) s = (s, err p)
  expire_listed ttl now (ok es) s = expire ttl now es s

  unfoldable pub expire_stale_online : ℕ → ℕ → Stores R I → Stores R I × Result (List StationEntry)
  unfolding expire_listed
  expire_stale_online ttl now s = expire_listed ttl now (list_entries s) s
