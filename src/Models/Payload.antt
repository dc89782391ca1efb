-- ===== src/Models/Payload.antt =====
-- crates/openlink-models/src/cpdlc.rs: the texts of messages, `SerializedMessagePayload`.
use openlink.Prelude.{Text, text, Bool, Option, ◌++◌, map_option, unwrap_or, if◌then◌else◌}
use openlink.Models.View.{CpdlcConnectionView, display_phase}
use openlink.Models.Message.{
  CpdlcMetaMessage, logon_request, logon_response, connection_request, connection_response,
  logon_forward, session_update, CpdlcMessageType, application, meta, render_message,
}

abbrev pub accepted_text : Bool → Text
accepted_text accepted = if accepted then text "ACCEPTED" else text "REJECTED"

-- The closure that shows a connection of a session update.
abbrev pub connection_text : CpdlcConnectionView → Text
unfolding display_phase
connection_text c = c.peer ++ (text " (" ++ (display_phase c.phase ++ text ")"))

abbrev pub slot_text : Option CpdlcConnectionView → Text
slot_text slot = unwrap_or (text "NONE") (map_option connection_text slot)

unfoldable pub meta_payload : CpdlcMetaMessage → Text
unfolding display_phase
meta_payload (logon_request station origin destination) =
    text "LOGON REQUEST TO "
    ++ (station ++ (text " - FP ORIGIN " ++ (origin ++ (text " DEST " ++ destination))))
meta_payload (logon_response accepted) = text "LOGON " ++ accepted_text accepted
meta_payload connection_request = text "CONNECTION REQUEST"
meta_payload (connection_response accepted) = text "CONNECTION " ++ accepted_text accepted
meta_payload (logon_forward flight origin destination new_station) =
    text "LOGON FORWARD FLIGHT "
    ++ (flight
        ++ (text " ORIGIN "
            ++ (origin
                ++ (text " DEST " ++ (destination ++ (text " NEW STATION " ++ new_station))))))
meta_payload (session_update session) =
    text "SESSION UPDATE ACTIVE "
    ++ (slot_text session.active_connection
        ++ (text " INACTIVE " ++ slot_text session.inactive_connection))

-- `impl From<CpdlcMessageType> for SerializedMessagePayload`
unfoldable pub payload : CpdlcMessageType → Text
unfolding meta_payload
payload (application msg) = render_message msg
payload (meta message) = meta_payload message
