-- ===== src/Examples/Contracts.antt =====
-- Whole runs: the abstract machine, and a connection that is established, over buckets in memory.
use openlink.Prelude.{
  ℕ, ◌≡◌, refl, Text, text, true, false, Option, none, some, List, [], ◌∷◌, map, is_some, ok, arith,
  ◌=t◌,
}
use openlink.Models.Message.{acars, AcarsEnvelope, OpenLinkEnvelope}
use openlink.Server.Session
use openlink.Server.Session.{CpdlcSession}
use openlink.Server.Kv.{Entry}
use openlink.Models.Registry.{find_definition}
use openlink.Server.Handler.{normalize, normalize_element, revision_of}
use openlink.Server.Handler.Contract.{promises}
use openlink.Server.Handler.Contract.Refine.{Works}
use openlink.Server.Handler.Contract.Runs.{handle_all, handle_all-promises}
use openlink.Server.Handler.Contract.Handshake.{active, stage}
use openlink.Sdk.Sequence.{no_sequences}
use openlink.Sdk.Client.{answers_connection}
use openlink.Sdk.Client.Accepted.{perform-handle_all}
use openlink.Sdk.Client.Establish.{built_by, establishing, establishing-handle_all}
use openlink.Examples.Memory.{Memory, memory, empty, lookup, update_at, revision_at}
use openlink.Examples.Sessions.{aircraft, station2}
use openlink.Examples.Messages.{bucket, clearance, acars_of, open_link_of, connected_session}

revision_at-lookup :
    (k : Text) (s : Memory CpdlcSession) → revision_at s k ≡ revision_of (lookup k s.entries)
revision_at-lookup k s = read (lookup k s.entries)
  where
    read :
        (o : Option (Entry CpdlcSession))
        → elim o [ none ↦ 0 | some e ↦ e.revision ] ≡ revision_of o
    read none = refl
    read (some e) = refl

same_revision :
    (k : Text) (x : CpdlcSession) (n : ℕ) (s : Memory CpdlcSession)
    → revision_at s k ≡ n
    → (update_at k x n s).1 ≡ ok tt
same_revision k x n s h = ground arith

pub memory-Works : Works memory
memory-Works = record {
  reads = λ s k. (lookup k s.entries, refl);
  updates = λ s k x found h.
      let p : lookup k s.entries ≡ found = cc in
      same_revision k x (revision_of found) s (rw (revision_at-lookup k s, p) refl);
}

-- The clearance ends the connection, so the second message is refused.
abbrev messages : List (AcarsEnvelope × OpenLinkEnvelope)
messages =
    (acars_of clearance, open_link_of clearance) ∷ (acars_of clearance, open_link_of clearance) ∷ []

handle_all-promises_example :
    let abstract_run =
      promises (acars_of clearance ∷ acars_of clearance ∷ []) (memory.view bucket) in
    (memory.view (handle_all memory messages bucket).0 ≡ abstract_run.0)
    × ((handle_all memory messages bucket).1 ≡ abstract_run.1)
handle_all-promises_example = handle_all-promises memory memory-Works messages bucket

second_refused :
    map is_some (promises (acars_of clearance ∷ acars_of clearance ∷ []) (memory.view bucket)).1
    ≡ true ∷ false ∷ []
unfolding promises lookup ◌=t◌ normalize normalize_element find_definition
    Session.termination_request
second_refused = refl

establishing-handle_all_example :
    let p =
      handle_all memory
        (map
          (λ (a : AcarsEnvelope). (a, record (open_link_of clearance) { payload = acars a }))
          (built_by (establishing aircraft (text "LFPG")) no_sequences))
        empty in
    (active (memory.view p.0) (text "abc") ≡ some (stage (text "LFPG") true true))
    × (map is_some p.1 ≡ true ∷ true ∷ true ∷ true ∷ [])
unfolding lookup
establishing-handle_all_example =
    establishing-handle_all memory memory-Works
      (λ a. record (open_link_of clearance) { payload = acars a }) aircraft (text "LFPG")
      no_sequences empty refl

-- Another station has requested a logon and has no answer yet.
abbrev two_stations : CpdlcSession
two_stations = record connected_session {
  inactive_connection = some (record { station = station2; logon = false; connection = false });
}

abbrev two_stations_bucket : Memory CpdlcSession
two_stations_bucket = record {
  entries = (text "abc", record { revision = 1; value = some two_stations }) ∷ [];
  last = 1;
}

perform-handle_all_example :
    map is_some
      (handle_all memory
        (map
          (λ (a : AcarsEnvelope). (a, record (open_link_of clearance) { payload = acars a }))
          (built_by
            (answers_connection aircraft.callsign aircraft.address station2.callsign true ∷ [])
            no_sequences))
        two_stations_bucket).1
    ≡ false ∷ []
unfolding ◌=t◌ lookup
perform-handle_all_example =
    perform-handle_all memory memory-Works
      (λ a. record (open_link_of clearance) { payload = acars a })
      (answers_connection aircraft.callsign aircraft.address station2.callsign true) no_sequences
      two_stations_bucket two_stations refl refl
