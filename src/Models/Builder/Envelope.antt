-- ===== src/Models/Builder/Envelope.antt =====
-- crates/openlink-models/src/message_builder.rs: `EnvelopeBuilder`. A fresh identifier and the time
-- of day are arguments of `build`.
use openlink.Prelude.{ℕ, Text, Option, none, some, [], and_then, map_option, unwrap_or}
use openlink.Models.Endpoint.{NetworkId, NetworkAddress, OpenLinkRoutingEndpoint, server, address}
use openlink.Models.Message.{OpenLinkMessage, OpenLinkEnvelope}

pub record EnvelopeBuilder : Type 0 where
  pub id : Option Text
  pub timestamp : Option ℕ
  pub correlation_id : Option Text
  pub token : Option Text
  pub source : Option OpenLinkRoutingEndpoint
  pub destination : Option OpenLinkRoutingEndpoint
  pub payload : OpenLinkMessage

-- `MessageBuilder::envelope`
abbrev pub new : OpenLinkMessage → EnvelopeBuilder
new payload = record {
  id = none;
  timestamp = none;
  correlation_id = none;
  token = none;
  source = none;
  destination = none;
  payload = payload;
}

abbrev pub with_id : Text → EnvelopeBuilder → EnvelopeBuilder
with_id id b = record b { id = some id }

abbrev pub with_timestamp : ℕ → EnvelopeBuilder → EnvelopeBuilder
with_timestamp ts b = record b { timestamp = some ts }

abbrev pub with_correlation_id : Text → EnvelopeBuilder → EnvelopeBuilder
with_correlation_id cid b = record b { correlation_id = some cid }

abbrev pub with_token : Text → EnvelopeBuilder → EnvelopeBuilder
with_token token b = record b { token = some token }

abbrev pub source_raw : OpenLinkRoutingEndpoint → EnvelopeBuilder → EnvelopeBuilder
source_raw endpoint b = record b { source = some endpoint }

abbrev pub destination_raw : OpenLinkRoutingEndpoint → EnvelopeBuilder → EnvelopeBuilder
destination_raw endpoint b = record b { destination = some endpoint }

abbrev pub source_address : NetworkId → NetworkAddress → EnvelopeBuilder → EnvelopeBuilder
source_address network a = source_raw (address network a)

abbrev pub source_server : NetworkId → EnvelopeBuilder → EnvelopeBuilder
source_server network = source_raw (server network)

abbrev pub destination_address : NetworkId → NetworkAddress → EnvelopeBuilder → EnvelopeBuilder
destination_address network a = destination_raw (address network a)

abbrev pub destination_server : NetworkId → EnvelopeBuilder → EnvelopeBuilder
destination_server network = destination_raw (server network)

abbrev built :
    EnvelopeBuilder
    → Text
    → ℕ
    → OpenLinkRoutingEndpoint
    → OpenLinkRoutingEndpoint
    → OpenLinkEnvelope
built b fresh now source destination = record {
  id = unwrap_or fresh b.id;
  timestamp = unwrap_or now b.timestamp;
  correlation_id = b.correlation_id;
  routing = record { source = source; destination = destination };
  payload = b.payload;
  token = unwrap_or [] b.token;
}

abbrev pub build : Text → ℕ → EnvelopeBuilder → Option OpenLinkEnvelope
build fresh now b = and_then (λ s. map_option (built b fresh now s) b.destination) b.source
