-- ===== src/Examples/Stations.antt =====
-- Stations in two buckets in memory, and the theorems on the registry at them.
use openlink.Prelude.{
  ◌≡◌, refl, text, none, some, [], ◌∷◌, Option, ok, ◌=t◌, to_uppercase, Bool-cases, inl, inr,
  =t_iff,
}
use openlink.Models.Endpoint.{AcarsRoutingEndpoint, online, offline}
use openlink.Server.Registry.{
  StationEntry, CallsignIndexEntry, Stores, callsign_index_key, lookup_callsign, follow,
  update_status, update_found, drop_stale, index_callsign, list_entries, collect, expire,
  expire_listed, expire_stale_online,
}
use openlink.Server.Registry.Lookup.{entry_of, lookup_callsign-online, lookup_callsign-offline}
use openlink.Server.Registry.Lease.{IsFresh, IsKeyed, expire_stale_online-IsFresh}
use openlink.Examples.Memory.{Memory, memory, empty, lookup, insert}

abbrev paris : AcarsRoutingEndpoint
paris = record { callsign = text "LFPG"; address = text "p1" }

abbrev nothing : Stores (Memory StationEntry) (Memory CallsignIndexEntry)
nothing = record { registry = empty; index = empty }

abbrev one : Stores (Memory StationEntry) (Memory CallsignIndexEntry)
one = record {
  registry = record {
    entries =
        (
          text "a",
          record { revision = 1; value = some (entry_of (text "a") online paris (text "n") 10) },
        )
        ∷ [];
    last = 1;
  };
  index = record {
    entries =
        (text "LFPG", record { revision = 1; value = some (record { station_id = text "a" }) })
        ∷ [];
    last = 1;
  };
}

came_online : (update_status memory memory (text "b") online paris (text "n") 20 one).1 ≡ ok tt
unfolding update_status update_found drop_stale index_callsign
came_online = refl

found_online :
    lookup_callsign memory memory
      (text "lfpg")
      (update_status memory memory (text "b") online paris (text "n") 20 one).0
    ≡ ok (some (entry_of (text "b") online paris (text "n") 20))
unfolding update_status update_found drop_stale index_callsign lookup_callsign follow
    callsign_index_key to_uppercase lookup insert ◌=t◌
found_online = refl

lookup_callsign-online_example :
    some (entry_of (text "b") online paris (text "n") 20)
    ≡ some (entry_of (text "b") online paris (text "n") 20)
unfolding to_uppercase
lookup_callsign-online_example =
    lookup_callsign-online memory memory (text "b") paris (text "n") 20 one (text "lfpg")
      (some (entry_of (text "b") online paris (text "n") 20)) came_online refl found_online

-- Station "b" goes offline, while the index names station "a", which is online.
gone_offline : (update_status memory memory (text "b") offline paris (text "n") 30 one).1 ≡ ok tt
unfolding update_status update_found drop_stale index_callsign
gone_offline = refl

not_found :
    lookup_callsign memory memory
      (text "LFPG")
      (update_status memory memory (text "b") offline paris (text "n") 30 one).0
    ≡ ok none
unfolding update_status update_found drop_stale index_callsign lookup_callsign follow
    callsign_index_key to_uppercase lookup insert ◌=t◌
not_found = refl

lookup_callsign-offline_example : ◌≡◌ {A = Option StationEntry} none none
lookup_callsign-offline_example =
    lookup_callsign-offline memory memory (text "b") paris (text "n") 30 one (text "LFPG") none
      (λ i. refl) gone_offline refl not_found

keyed : IsKeyed memory memory one.registry
unfolding lookup
keyed k = elim (Bool-cases (text "a" =t k)) [
  | inl p ↦ rw p ((=t_iff (text "a") k).0 p)
  | inr p ↦ rw p tt
]

swept :
    (expire_stale_online memory memory 60 100 one).1
    ≡ ok (entry_of (text "a") online paris (text "n") 10 ∷ [])
unfolding expire_stale_online expire_listed expire list_entries collect update_status update_found
    drop_stale index_callsign lookup ◌=t◌
swept = refl

expire_stale_online-IsFresh_example :
    IsFresh 60 100 (some (entry_of (text "a") offline paris (text "n") 100))
unfolding expire_stale_online expire_listed expire list_entries collect update_status update_found
    drop_stale index_callsign lookup insert ◌=t◌
expire_stale_online-IsFresh_example =
    expire_stale_online-IsFresh memory memory 60 100 one
      (entry_of (text "a") online paris (text "n") 10 ∷ []) (text "a") keyed swept
