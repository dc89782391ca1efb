-- ===== src/Models/Builder/Station.antt =====
-- crates/openlink-models/src/message_builder.rs: `StationStatusBuilder`.
use openlink.Prelude.{Text, Option, none, some, map_option}
use openlink.Models.Endpoint.{StationStatus, station_status}
use openlink.Models.Message.{OpenLinkMessage, meta_message}

pub record StationStatusBuilder : Type 0 where
  pub network_address : Text
  pub callsign : Text
  pub acars_address : Text
  pub status : Option StationStatus

-- `MessageBuilder::station_status`
abbrev pub new : Text → Text → Text → StationStatusBuilder
new network_address callsign acars_address = record {
  network_address = network_address;
  callsign = callsign;
  acars_address = acars_address;
  status = none;
}

abbrev pub online : StationStatusBuilder → StationStatusBuilder
online b = record b { status = some StationStatus.online }

abbrev pub offline : StationStatusBuilder → StationStatusBuilder
offline b = record b { status = some StationStatus.offline }

abbrev built : StationStatusBuilder → StationStatus → OpenLinkMessage
built b status = meta_message (
    station_status b.network_address status
      (record { callsign = b.callsign; address = b.acars_address }))

abbrev pub build : StationStatusBuilder → Option OpenLinkMessage
build b = map_option (built b) b.status
