-- ===== src/Models/Uplink.antt =====
-- crates/openlink-models/src/cpdlc.rs: the uplink half of `MESSAGE_REGISTRY`.
use openlink.Prelude.{List, [], ◌∷◌, true, false}
use openlink.Models.Attribute.{n, y, r, an, wu}
use openlink.Models.Definition.{MessageDefinition, um}
use openlink.Models.Argument.{ArgType}

unfoldable pub uplink_registry : List MessageDefinition
uplink_registry =
    um "UM0" "UNABLE" [] n true true
    ∷ um "UM1" "STANDBY" [] n true true
    ∷ um "UM2" "REQUEST DEFERRED" [] n true false
    ∷ um "UM3" "ROGER" [] n true true
    ∷ um "UM4" "AFFIRM" [] n true true
    ∷ um "UM5" "NEGATIVE" [] n true true
    ∷ um "UM159" "ERROR [error information]" (ArgType.error_info ∷ []) n true true
    ∷ um "UM160" "NEXT DATA AUTHORITY [facility designation]" (ArgType.facility_designation ∷ []) n
        true true
    ∷ um "UM161" "END SERVICE" [] n true false
    ∷ um "UM162" "MESSAGE NOT SUPPORTED BY THIS ATS UNIT" [] n true true
    ∷ um "UM163" "[facility designation]" (ArgType.facility_designation ∷ []) n true false
    ∷ um "UM211" "REQUEST FORWARDED" [] n true true
    ∷ um "UM227" "LOGICAL ACKNOWLEDGEMENT" [] n false true
    ∷ um "UM19" "MAINTAIN [level]" (ArgType.level ∷ []) wu true true
    ∷ um "UM20" "CLIMB TO [level]" (ArgType.level ∷ []) wu true true
    ∷ um "UM21" "AT [time] CLIMB TO [level]" (ArgType.time ∷ ArgType.level ∷ []) wu true false
    ∷ um "UM22" "AT [position] CLIMB TO [level]" (ArgType.position ∷ ArgType.level ∷ []) wu true
        false
    ∷ um "UM23" "DESCEND TO [level]" (ArgType.level ∷ []) wu true true
    ∷ um "UM24" "AT [time] DESCEND TO [level]" (ArgType.time ∷ ArgType.level ∷ []) wu true false
    ∷ um "UM25" "AT [position] DESCEND TO [level]" (ArgType.position ∷ ArgType.level ∷ []) wu true
        false
    ∷ um "UM26" "CLIMB TO REACH [level] BY [time]" (ArgType.level ∷ ArgType.time ∷ []) wu true true
    ∷ um "UM27" "CLIMB TO REACH [level] BY [position]" (ArgType.level ∷ ArgType.position ∷ []) wu
        true true
    ∷ um "UM28" "DESCEND TO REACH [level] BY [time]" (ArgType.level ∷ ArgType.time ∷ []) wu true
        true
    ∷ um "UM29" "DESCEND TO REACH [level] BY [position]" (ArgType.level ∷ ArgType.position ∷ []) wu
        true true
    ∷ um "UM30" "MAINTAIN BLOCK [level] TO [level]" (ArgType.level ∷ ArgType.level ∷ []) wu true
        false
    ∷ um "UM31" "CLIMB TO AND MAINTAIN BLOCK [level] TO [level]"
        (ArgType.level ∷ ArgType.level ∷ []) wu true false
    ∷ um "UM32" "DESCEND TO AND MAINTAIN BLOCK [level] TO [level]"
        (ArgType.level ∷ ArgType.level ∷ []) wu true false
    ∷ um "UM34" "CRUISE CLIMB TO [level]" (ArgType.level ∷ []) wu true false
    ∷ um "UM36" "EXPEDITE CLIMB TO [level]" (ArgType.level ∷ []) wu true false
    ∷ um "UM37" "EXPEDITE DESCENT TO [level]" (ArgType.level ∷ []) wu true false
    ∷ um "UM38" "IMMEDIATELY CLIMB TO [level]" (ArgType.level ∷ []) wu true false
    ∷ um "UM39" "IMMEDIATELY DESCEND TO [level]" (ArgType.level ∷ []) wu true false
    ∷ um "UM46" "CROSS [position] AT [level]" (ArgType.position ∷ ArgType.level ∷ []) wu true true
    ∷ um "UM47" "CROSS [position] AT OR ABOVE [level]" (ArgType.position ∷ ArgType.level ∷ []) wu
        true true
    ∷ um "UM48" "CROSS [position] AT OR BELOW [level]" (ArgType.position ∷ ArgType.level ∷ []) wu
        true true
    ∷ um "UM49" "CROSS [position] AT AND MAINTAIN [level]" (ArgType.position ∷ ArgType.level ∷ [])
        wu true false
    ∷ um "UM50" "CROSS [position] BETWEEN [level] AND [level]"
        (ArgType.position ∷ ArgType.level ∷ ArgType.level ∷ []) wu true false
    ∷ um "UM51" "CROSS [position] AT [time]" (ArgType.position ∷ ArgType.time ∷ []) wu true true
    ∷ um "UM52" "CROSS [position] AT OR BEFORE [time]" (ArgType.position ∷ ArgType.time ∷ []) wu
        true true
    ∷ um "UM53" "CROSS [position] AT OR AFTER [time]" (ArgType.position ∷ ArgType.time ∷ []) wu true
        true
    ∷ um "UM54" "CROSS [position] BETWEEN [time] AND [time]"
        (ArgType.position ∷ ArgType.time ∷ ArgType.time ∷ []) wu true true
    ∷ um "UM55" "CROSS [position] AT [speed]" (ArgType.position ∷ ArgType.speed ∷ []) wu true true
    ∷ um "UM61" "CROSS [position] AT AND MAINTAIN [level] AT [speed]"
        (ArgType.position ∷ ArgType.level ∷ ArgType.speed ∷ []) wu true true
    ∷ um "UM74" "PROCEED DIRECT TO [position]" (ArgType.position ∷ []) wu true true
    ∷ um "UM79" "CLEARED TO [position] VIA [route clearance]"
        (ArgType.position ∷ ArgType.route_clearance ∷ []) wu true true
    ∷ um "UM80" "CLEARED [route clearance]" (ArgType.route_clearance ∷ []) wu true true
    ∷ um "UM81" "CLEARED [procedure name]" (ArgType.procedure_name ∷ []) wu true false
    ∷ um "UM82" "CLEARED TO DEVIATE UP TO [distance] [direction] OF ROUTE"
        (ArgType.distance ∷ ArgType.direction ∷ []) wu true true
    ∷ um "UM92" "HOLD AT [position] AS PUBLISHED MAINTAIN [level]"
        (ArgType.position ∷ ArgType.level ∷ []) wu true true
    ∷ um "UM64" "OFFSET [distance] [direction] OF ROUTE" (ArgType.distance ∷ ArgType.direction ∷ [])
        wu true true
    ∷ um "UM67" "PROCEED BACK ON ROUTE" [] wu true false
    ∷ um "UM94" "TURN [direction] HEADING [degrees]" (ArgType.direction ∷ ArgType.degrees ∷ []) wu
        true true
    ∷ um "UM96" "CONTINUE PRESENT HEADING" [] wu true true
    ∷ um "UM190" "FLY HEADING [degrees]" (ArgType.degrees ∷ []) wu true true
    ∷ um "UM215" "TURN [direction] [degrees] DEGREES" (ArgType.direction ∷ ArgType.degrees ∷ []) wu
        true true
    ∷ um "UM106" "MAINTAIN [speed]" (ArgType.speed ∷ []) wu true true
    ∷ um "UM107" "MAINTAIN PRESENT SPEED" [] wu true true
    ∷ um "UM108" "MAINTAIN [speed] OR GREATER" (ArgType.speed ∷ []) wu true true
    ∷ um "UM109" "MAINTAIN [speed] OR LESS" (ArgType.speed ∷ []) wu true true
    ∷ um "UM116" "RESUME NORMAL SPEED" [] wu true true
    ∷ um "UM117" "CONTACT [unit name] [frequency]" (ArgType.unit_name ∷ ArgType.frequency ∷ []) wu
        true true
    ∷ um "UM120" "MONITOR [unit name] [frequency]" (ArgType.unit_name ∷ ArgType.frequency ∷ []) wu
        true true
    ∷ um "UM123" "SQUAWK [code]" (ArgType.code ∷ []) wu true true
    ∷ um "UM179" "SQUAWK IDENT" [] wu true true
    ∷ um "UM129" "REPORT MAINTAINING [level]" (ArgType.level ∷ []) r true false
    ∷ um "UM128" "REPORT LEAVING [level]" (ArgType.level ∷ []) r true false
    ∷ um "UM130" "REPORT PASSING [position]" (ArgType.position ∷ []) r true false
    ∷ um "UM132" "REPORT POSITION" [] y true false
    ∷ um "UM133" "REPORT PRESENT LEVEL" [] y true true
    ∷ um "UM135" "CONFIRM ASSIGNED LEVEL" [] y true true
    ∷ um "UM148" "WHEN CAN YOU ACCEPT [level]" (ArgType.level ∷ []) y true true
    ∷ um "UM149" "CAN YOU ACCEPT [level] AT [position]" (ArgType.level ∷ ArgType.position ∷ []) an
        true false
    ∷ um "UM153" "ALTIMETER [altimeter]" (ArgType.altimeter ∷ []) r true false
    ∷ um "UM158" "ATIS [atis code]" (ArgType.atis_code ∷ []) r true false
    ∷ um "UM168" "DISREGARD" [] r true false
    ∷ um "UM169" "[free text]" (ArgType.free_text ∷ []) r true true
    ∷ um "UM183" "[free text]" (ArgType.free_text ∷ []) wu true true
    ∷ um "UM222" "NO SPEED RESTRICTION" [] r true true
    ∷ um "UM176" "MAINTAIN OWN SEPARATION AND VMC" [] wu true false
    ∷ []
