-- ===== src/Models/Registry.antt =====
-- crates/openlink-models/src/cpdlc.rs: `MESSAGE_REGISTRY` and its search.
use openlink.Prelude.{Text, List, [], ◌∷◌, ◌++◌, Option, none, some, ◌=t◌, if◌then◌else◌}
use openlink.Models.Definition.{MessageDefinition}
use openlink.Models.Uplink.{uplink_registry}
use openlink.Models.Downlink.{downlink_registry}

unfoldable pub message_registry : List MessageDefinition
unfolding uplink_registry downlink_registry
message_registry = uplink_registry ++ downlink_registry

unfoldable pub find_in : List MessageDefinition → Text → Option MessageDefinition
find_in [] id = none
find_in (d ∷ ds) id = if d.id =t id then some d else find_in ds id

-- `find_definition`
unfoldable pub find_definition : Text → Option MessageDefinition
unfolding message_registry find_in
find_definition id = find_in message_registry id
