-- ===== src/Examples/Terminations.antt =====
-- A station that goes offline, over a bucket in memory.
use openlink.Prelude.{◌≡◌, refl, text, some, none, [], ◌∷◌, ok, ◌=t◌}
use openlink.Server.Session.{CpdlcSession, termination_request}
use openlink.Server.Handler.{get_and_update, write_back, is_relevant}
use openlink.Server.Termination.{
  terminate_update, list_relevant, list_sessions_for_callsign, terminate_all, terminate_listed,
  terminate_sessions_for_station,
}
use openlink.Server.Termination.Gone.{IsGone, IsOnce}
use openlink.Server.Termination.Complete.{terminate_sessions_for_station-IsGone}
use openlink.Examples.Memory.{memory, lookup, insert}
use openlink.Examples.Sessions.{station1}
use openlink.Examples.Messages.{connected_session, bucket, bucket-AllSound}

-- The only session, without its connection.
abbrev left : CpdlcSession
left = record connected_session { active_connection = none }

terminated : (terminate_sessions_for_station memory station1.callsign bucket).1 ≡ ok (left ∷ [])
unfolding terminate_sessions_for_station terminate_listed terminate_all list_sessions_for_callsign
    list_relevant is_relevant terminate_update termination_request get_and_update write_back lookup
    insert ◌=t◌
terminated = refl

once : IsOnce station1.callsign (memory.view bucket (text "abc"))
unfolding lookup ◌=t◌
once = refl

terminate_sessions_for_station-IsGone_example : IsGone station1.callsign (some left)
unfolding terminate_sessions_for_station terminate_listed terminate_all list_sessions_for_callsign
    list_relevant is_relevant terminate_update termination_request get_and_update write_back lookup
    insert ◌=t◌
terminate_sessions_for_station-IsGone_example =
    terminate_sessions_for_station-IsGone memory station1.callsign bucket (left ∷ []) (text "abc")
      bucket-AllSound once terminated
