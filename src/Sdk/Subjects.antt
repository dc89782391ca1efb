-- ===== src/Sdk/Subjects.antt =====
-- crates/openlink-sdk/src/subjects.rs: `NatsSubjects`.
use openlink.Prelude.{
  ◌≡◌, refl, Text, text, true, ◌&&◌, List, [], ◌∷◌, ◌++◌, Option, none, some, ◌=t◌, lacks, splitn,
  splitn-append, if◌then◌else◌,
}
use openlink.Models.Endpoint.{NetworkId, NetworkAddress}

abbrev version : Text
version = text "v1"

unfoldable pub outbox : NetworkId → NetworkAddress → Text
outbox network address =
    text "openlink." ++ (version ++ (46 ∷ (network ++ (46 ∷ (text "outbox" ++ (46 ∷ address))))))

unfoldable pub inbox : NetworkId → NetworkAddress → Text
inbox network address =
    text "openlink." ++ (version ++ (46 ∷ (network ++ (46 ∷ (text "inbox" ++ (46 ∷ address))))))

unfoldable pub outbox_wildcard : NetworkId → Text
outbox_wildcard network = text "openlink." ++ (version ++ (46 ∷ (network ++ text ".outbox.>")))

unfoldable pub inbox_wildcard : NetworkId → Text
inbox_wildcard network = text "openlink." ++ (version ++ (46 ∷ (network ++ text ".inbox.>")))

pub kv_cpdlc_sessions : NetworkId → Text
kv_cpdlc_sessions network =
    text "openlink-" ++ (version ++ (45 ∷ (network ++ text "-cpdlc-sessions")))

pub kv_station_registry : NetworkId → Text
kv_station_registry network =
    text "openlink-" ++ (version ++ (45 ∷ (network ++ text "-station-registry")))

pub kv_station_callsign_index : NetworkId → Text
kv_station_callsign_index network =
    text "openlink-" ++ (version ++ (45 ∷ (network ++ text "-station-callsign-index")))

-- The fifth of five parts, if the first and the fourth are as given.
abbrev fifth : Text → List Text → Option Text
fifth kind (a ∷ b ∷ c ∷ d ∷ e ∷ []) = if a =t text "openlink" && d =t kind then some e else none
fifth kind _ = none

unfoldable pub parse_outbox_sender : Text → Option Text
parse_outbox_sender subject = fifth (text "outbox") (splitn 5 46 subject)

unfoldable pub parse_inbox_recipient : Text → Option Text
parse_inbox_recipient subject = fifth (text "inbox") (splitn 5 46 subject)

-- How a subject of a network without a dot splits.
splitn-subject :
    (network kind address : Text)
    → lacks 46 network ≡ true
    → lacks 46 kind ≡ true
    → splitn 5 46
        (text "openlink." ++ (version ++ (46 ∷ (network ++ (46 ∷ (kind ++ (46 ∷ address)))))))
      ≡ text "openlink" ∷ version ∷ network ∷ kind ∷ address ∷ []
unfolding splitn
splitn-subject network kind address h k =
    let tail = kind ++ (46 ∷ address) in
    rw (splitn-append 3 46 (text "openlink") (version ++ (46 ∷ (network ++ (46 ∷ tail)))) refl) (
      rw (splitn-append 2 46 version (network ++ (46 ∷ tail)) refl)
        (rw (splitn-append 1 46 network tail h) (rw (splitn-append 0 46 kind address k) refl)))

-- On a network whose name has no dot, the parsers read back the address of the subjects that the
-- builders make: the sender of an outbox and the recipient of an inbox, whatever the address; neither
-- parser takes a subject of the other direction.
pub parse-subject :
    (network : NetworkId) (address : NetworkAddress)
    → lacks 46 network ≡ true
    → (parse_outbox_sender (outbox network address) ≡ some address)
      × (parse_inbox_recipient (inbox network address) ≡ some address)
      × (parse_outbox_sender (inbox network address) ≡ none)
      × (parse_inbox_recipient (outbox network address) ≡ none)
unfolding parse_outbox_sender parse_inbox_recipient outbox inbox ◌=t◌
parse-subject network address h =
    let out = splitn-subject network (text "outbox") address h refl in
    let in_ = splitn-subject network (text "inbox") address h refl in
    (rw out refl, rw in_ refl, rw in_ refl, rw out refl)
