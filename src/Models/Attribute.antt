-- ===== src/Models/Attribute.antt =====
-- crates/openlink-models/src/cpdlc.rs: response attributes and the short responses that they allow.
use openlink.Prelude.{
  ℕ, Text, text, Bool, true, false, List, [], ◌∷◌, leb, any, one_of, if◌then◌else◌,
}

pub data MessageDirection : Type 0 where
  uplink downlink : MessageDirection

-- `#[derive(PartialEq)]`
abbrev pub same_direction : MessageDirection → MessageDirection → Bool
same_direction uplink uplink = true
same_direction downlink downlink = true
same_direction _ _ = false

pub data ResponseAttribute : Type 0 where
  n y r an wu ne : ResponseAttribute

-- The discriminants, which `#[derive(Ord)]` compares.
abbrev pub rank : ResponseAttribute → ℕ
rank n = 0
rank y = 1
rank r = 2
rank an = 3
rank wu = 4
rank ne = 5

unfoldable pub max_attribute : ResponseAttribute → ResponseAttribute → ResponseAttribute
max_attribute a b = if leb (rank a) (rank b) then b else a

-- The `map` of `effective`: NE counts as N.
abbrev pub as_precedence : ResponseAttribute → ResponseAttribute
as_precedence ne = n
as_precedence a = a

-- `max()` of an iterator that is not empty.
unfoldable pub max_from : ResponseAttribute → List ResponseAttribute → ResponseAttribute
unfolding max_attribute
max_from best [] = best
max_from best (a ∷ attrs) = max_from (max_attribute best (as_precedence a)) attrs

-- `ResponseAttribute::effective`; `max()` of nothing is `None`, so N.
unfoldable pub effective : List ResponseAttribute → ResponseAttribute
unfolding max_from
effective [] = n
effective (a ∷ attrs) = max_from (as_precedence a) attrs

pub data CpdlcResponseIntent : Type 0 where
  wilco unable standby roger affirm negative : CpdlcResponseIntent

-- `==` on intents.
abbrev pub same_intent : CpdlcResponseIntent → CpdlcResponseIntent → Bool
same_intent wilco wilco = true
same_intent unable unable = true
same_intent standby standby = true
same_intent roger roger = true
same_intent affirm affirm = true
same_intent negative negative = true
same_intent _ _ = false

abbrev pub has_intent : CpdlcResponseIntent → List CpdlcResponseIntent → Bool
has_intent i intents = any (same_intent i) intents

unfoldable pub downlink_id : CpdlcResponseIntent → Text
downlink_id wilco = text "DM0"
downlink_id unable = text "DM1"
downlink_id standby = text "DM2"
downlink_id roger = text "DM3"
downlink_id affirm = text "DM4"
downlink_id negative = text "DM5"

unfoldable pub uplink_id : CpdlcResponseIntent → Text
uplink_id wilco = text "UM3"
uplink_id unable = text "UM0"
uplink_id standby = text "UM1"
uplink_id roger = text "UM3"
uplink_id affirm = text "UM4"
uplink_id negative = text "UM5"

pub label : CpdlcResponseIntent → Text
label wilco = text "WILCO"
label unable = text "UNABLE"
label standby = text "STANDBY"
label roger = text "ROGER"
label affirm = text "AFFIRM"
label negative = text "NEGATIVE"

unfoldable pub for_attribute : ResponseAttribute → List CpdlcResponseIntent
for_attribute wu = wilco ∷ unable ∷ standby ∷ []
for_attribute an = affirm ∷ negative ∷ standby ∷ []
for_attribute r = roger ∷ standby ∷ []
for_attribute _ = []

-- `impl Display for ResponseAttribute`
unfoldable pub display_attribute : ResponseAttribute → Text
display_attribute wu = text "W/U"
display_attribute an = text "A/N"
display_attribute r = text "R"
display_attribute y = text "Y"
display_attribute n = text "N"
display_attribute ne = text "NE"

-- The closing replies that a request allows; the first group of tests is an or-pattern.
unfoldable pub constrained_closing_reply_ids : Text → List Text
constrained_closing_reply_ids id =
    if one_of id (text "DM6" ∷ text "DM9" ∷ text "DM10" ∷ [])
    then text "UM0"
      ∷ text "UM19"
      ∷ text "UM20"
      ∷ text "UM23"
      ∷ text "UM26"
      ∷ text "UM27"
      ∷ text "UM28"
      ∷ text "UM29"
      ∷ text "UM46"
      ∷ text "UM47"
      ∷ text "UM48"
      ∷ []
    else if one_of id (text "DM7" ∷ [])
    then text "UM0" ∷ text "UM30" ∷ text "UM31" ∷ text "UM32" ∷ []
    else if one_of id (text "DM22" ∷ [])
    then text "UM0" ∷ text "UM74" ∷ text "UM96" ∷ text "UM190" ∷ []
    else if one_of id (text "DM27" ∷ [])
    then text "UM0" ∷ text "UM82" ∷ text "UM64" ∷ text "UM74" ∷ text "UM96" ∷ text "UM190" ∷ []
    else if one_of id (text "DM18" ∷ [])
    then text "UM0"
      ∷ text "UM106"
      ∷ text "UM107"
      ∷ text "UM108"
      ∷ text "UM109"
      ∷ text "UM116"
      ∷ text "UM222"
      ∷ []
    else if one_of id (text "DM49" ∷ [])
    then text "UM100" ∷ text "UM101" ∷ []
    else if one_of id (text "DM52" ∷ [])
    then text "UM9" ∷ text "UM10" ∷ []
    else if one_of id (text "DM53" ∷ [])
    then text "UM7" ∷ text "UM8" ∷ []
    else []
