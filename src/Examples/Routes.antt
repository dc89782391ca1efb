-- ===== src/Examples/Routes.antt =====
-- Messages routed over buckets in memory.
use openlink.Prelude.{◌≡◌, refl, text, true, some, [], ◌∷◌, ok, ◌=t◌, one_of, to_uppercase}
use openlink.Models.Endpoint.{online, address}
use openlink.Models.Message.{application, cpdlc, acars}
use openlink.Server.Handler.{normalize}
use openlink.Server.Handler.Exchange.{managed}
use openlink.Server.Registry.{
  StationEntry, CallsignIndexEntry, Stores, lookup_callsign, follow, callsign_index_key,
}
use openlink.Server.Registry.Lookup.{entry_of}
use openlink.Server.Routing.{nothing_routed, route_acars, station_callsigns}
use openlink.Server.Routing.Delivery.{
  route_acars-refused, route_acars-passed, station_callsigns_iff,
}
use openlink.Examples.Memory.{Memory, memory, lookup}
use openlink.Examples.Sessions.{aircraft, station1}
use openlink.Examples.Messages.{
  connected_session, bucket, clearance, bad_min, envelope_of, acars_of, open_link_of,
}

abbrev plane : StationEntry
plane = entry_of (text "p") online aircraft (text "net1") 10

abbrev pub stations : Stores (Memory StationEntry) (Memory CallsignIndexEntry)
stations = record {
  registry = record {
    entries = (text "p", record { revision = 1; value = some plane }) ∷ [];
    last = 1;
  };
  index = record {
    entries =
        (text "TEST123", record { revision = 1; value = some (record { station_id = text "p" }) })
        ∷ [];
    last = 1;
  };
}

plane_found : lookup_callsign memory memory aircraft.callsign stations ≡ ok (some plane)
unfolding lookup_callsign follow callsign_index_key to_uppercase lookup ◌=t◌
plane_found = refl

route_acars-refused_example :
    route_acars memory memory memory
      (text "demo")
      (acars_of bad_min)
      (open_link_of bad_min)
      stations
      bucket
    ≡ (bucket, nothing_routed)
unfolding lookup ◌=t◌
route_acars-refused_example =
    route_acars-refused memory memory memory (text "demo") bad_min (envelope_of bad_min)
      (acars_of bad_min) (open_link_of bad_min) stations bucket refl

route_acars-passed_example :
    (route_acars memory memory memory
      (text "demo")
      (acars_of clearance)
      (open_link_of clearance)
      stations
      bucket).1
    ≡ record {
      forwarded = some (
        text "net1",
        record (open_link_of clearance) {
          payload = acars (record (acars_of clearance) {
            message =
                cpdlc
                  (record (envelope_of clearance) { message = application (normalize clearance) });
          });
          routing = record {
            source = (open_link_of clearance).routing.destination;
            destination = address (text "demo") (text "net1");
          };
        },
      );
      broadcast = some (managed station1.callsign (normalize clearance).elements connected_session);
    }
unfolding lookup ◌=t◌
route_acars-passed_example =
    route_acars-passed memory memory memory (text "demo") clearance (envelope_of clearance)
      (acars_of clearance) (open_link_of clearance) stations bucket connected_session
      (some (record { revision = 1; value = some connected_session })) plane refl refl refl refl
      plane_found

station_callsigns_iff_example :
    one_of (text "STATION1") (station_callsigns connected_session (open_link_of clearance)) ≡ true
unfolding ◌=t◌
station_callsigns_iff_example =
    station_callsigns_iff (text "STATION1") connected_session (open_link_of clearance)
      (acars_of clearance)
