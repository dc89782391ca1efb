-- ===== src/Models/Downlink.antt =====
-- crates/openlink-models/src/cpdlc.rs: the downlink half of `MESSAGE_REGISTRY`.
use openlink.Prelude.{List, [], ◌∷◌, true, false}
use openlink.Models.Attribute.{n, y, r}
use openlink.Models.Definition.{MessageDefinition, dm}
use openlink.Models.Argument.{ArgType}

unfoldable pub downlink_registry : List MessageDefinition
downlink_registry =
    dm "DM0" "WILCO" [] n true true
    ∷ dm "DM1" "UNABLE" [] n true true
    ∷ dm "DM2" "STANDBY" [] n true true
    ∷ dm "DM3" "ROGER" [] n true true
    ∷ dm "DM4" "AFFIRM" [] n true true
    ∷ dm "DM5" "NEGATIVE" [] n true true
    ∷ dm "DM62" "ERROR [error information]" (ArgType.error_info ∷ []) n true true
    ∷ dm "DM63" "NOT CURRENT DATA AUTHORITY" [] n true true
    ∷ dm "DM100" "LOGICAL ACKNOWLEDGEMENT" [] n false true
    ∷ dm "DM6" "REQUEST [level]" (ArgType.level ∷ []) y true true
    ∷ dm "DM7" "REQUEST BLOCK [level] TO [level]" (ArgType.level ∷ ArgType.level ∷ []) y true false
    ∷ dm "DM9" "REQUEST CLIMB TO [level]" (ArgType.level ∷ []) y true true
    ∷ dm "DM10" "REQUEST DESCENT TO [level]" (ArgType.level ∷ []) y true true
    ∷ dm "DM18" "REQUEST [speed]" (ArgType.speed ∷ []) y true true
    ∷ dm "DM22" "REQUEST DIRECT TO [position]" (ArgType.position ∷ []) y true true
    ∷ dm "DM25" "REQUEST CLEARANCE" [] y true false
    ∷ dm "DM27" "REQUEST WEATHER DEVIATION UP TO [distance] [direction] OF ROUTE"
        (ArgType.distance ∷ ArgType.direction ∷ []) y true true
    ∷ dm "DM70" "REQUEST HEADING [degrees]" (ArgType.degrees ∷ []) y true false
    ∷ dm "DM15" "REQUEST OFFSET [distance] [direction] OF ROUTE"
        (ArgType.distance ∷ ArgType.direction ∷ []) y true false
    ∷ dm "DM20" "REQUEST VOICE CONTACT" [] y true false
    ∷ dm "DM28" "LEAVING [level]" (ArgType.level ∷ []) n true false
    ∷ dm "DM29" "CLIMBING TO [level]" (ArgType.level ∷ []) n true false
    ∷ dm "DM30" "DESCENDING TO [level]" (ArgType.level ∷ []) n true false
    ∷ dm "DM31" "PASSING [position]" (ArgType.position ∷ []) n true false
    ∷ dm "DM32" "PRESENT LEVEL [level]" (ArgType.level ∷ []) n true true
    ∷ dm "DM33" "PRESENT POSITION [position]" (ArgType.position ∷ []) n true false
    ∷ dm "DM34" "PRESENT SPEED [speed]" (ArgType.speed ∷ []) n true false
    ∷ dm "DM37" "MAINTAINING [level]" (ArgType.level ∷ []) n true false
    ∷ dm "DM38" "ASSIGNED LEVEL [level]" (ArgType.level ∷ []) n true true
    ∷ dm "DM41" "BACK ON ROUTE" [] n true false
    ∷ dm "DM48" "POSITION REPORT [position report]" (ArgType.position_report ∷ []) n true false
    ∷ dm "DM65" "DUE TO WEATHER" [] n true true
    ∷ dm "DM66" "DUE TO AIRCRAFT PERFORMANCE" [] n true true
    ∷ dm "DM89" "MONITORING [unit name] [frequency]" (ArgType.unit_name ∷ ArgType.frequency ∷ []) n
        true true
    ∷ dm "DM55" "PAN PAN PAN" [] y true true
    ∷ dm "DM56" "MAYDAY MAYDAY MAYDAY" [] y true true
    ∷ dm "DM58" "CANCEL EMERGENCY" [] y true true
    ∷ dm "DM67" "[free text]" (ArgType.free_text ∷ []) r true true
    ∷ []
