-- ===== src/Hoppie/Tracker.antt =====
-- crates/openlink-hoppie/src/session.rs: `SessionTracker`. A lookup function stands for a hash map,
-- and a list without repetitions for a hash set.
pub mod Counters
pub mod Seen
use openlink.Prelude.{
  ℕ, ◌+◌, ◌%◌, Text, Bool, true, false, ◌&&◌, ◌||◌, Option, none, some, List, [], ◌∷◌, length, ltb,
  ◌==◌, any, one_of, ◌=t◌, to_uppercase, unwrap_or, if◌then◌else◌,
}

pub record SessionKey : Type 0 where
  pub aircraft : Text
  pub station : Text

-- `SessionKey::new`
unfoldable pub new_key : Text → Text → SessionKey
new_key aircraft station = record {
  aircraft = to_uppercase aircraft;
  station = to_uppercase station;
}

-- `==` on keys.
infix 50 ◌=k◌
abbrev pub ◌=k◌ : SessionKey → SessionKey → Bool
j =k k = j.aircraft =t k.aircraft && j.station =t k.station

abbrev pub MinMap : Type 0
MinMap = SessionKey → ℕ → Option ℕ

pub record SessionTracker : Type 0 where
  pub min_counters : SessionKey → Option ℕ
  pub min_map_hoppie_to_openlink : MinMap
  pub min_map_openlink_to_hoppie : MinMap
  pub seen_openlink_ids : List Text
  pub seen_hoppie_hashes : List ℕ

-- `SessionTracker::new`
abbrev pub new_tracker : SessionTracker
new_tracker = record {
  min_counters = λ k. none;
  min_map_hoppie_to_openlink = λ k n. none;
  min_map_openlink_to_hoppie = λ k n. none;
  seen_openlink_ids = [];
  seen_hoppie_hashes = [];
}

-- The counter is incremented in place.
unfoldable pub next_min : SessionKey → SessionTracker → SessionTracker × ℕ
next_min key t =
    let counter = unwrap_or 0 (t.min_counters key) % 63 + 1 in
    (record t { min_counters = λ k. if key =k k then some counter else t.min_counters k }, counter)

abbrev insert : SessionKey → ℕ → ℕ → MinMap → MinMap
insert key from_min to_min m k n = if key =k k && from_min == n then some to_min else m k n

unfoldable pub record_hoppie_min : SessionKey → ℕ → ℕ → SessionTracker → SessionTracker
record_hoppie_min key hoppie_min bridge_min t = record t {
  min_map_hoppie_to_openlink = insert key hoppie_min bridge_min t.min_map_hoppie_to_openlink;
}

unfoldable pub record_openlink_min : SessionKey → ℕ → ℕ → SessionTracker → SessionTracker
record_openlink_min key openlink_min bridge_min t = record t {
  min_map_openlink_to_hoppie = insert key openlink_min bridge_min t.min_map_openlink_to_hoppie;
}

unfoldable pub translate_hoppie_mrn : SessionKey → ℕ → SessionTracker → Option ℕ
translate_hoppie_mrn key hoppie_mrn t = t.min_map_hoppie_to_openlink key hoppie_mrn

unfoldable pub translate_openlink_mrn : SessionKey → ℕ → SessionTracker → Option ℕ
translate_openlink_mrn key openlink_mrn t = t.min_map_openlink_to_hoppie key openlink_mrn

-- `contains` and `insert` of a hash set, by the test on its members.
abbrev pub contains {ℓ} : {A : Type ℓ} → (A → A → Bool) → A → List A → Bool
contains same a xs = any (same a) xs

abbrev pub insert_new {ℓ} : {A : Type ℓ} → (A → A → Bool) → A → List A → List A
insert_new same a xs = if contains same a xs then xs else a ∷ xs

-- A set that has grown past 10 000 members is cleared.
abbrev pub limited {ℓ} : {A : Type ℓ} → List A → List A
limited xs = if ltb 10000 (length xs) then [] else xs

unfoldable pub is_openlink_seen : Text → SessionTracker → Bool
is_openlink_seen id t = contains ◌=t◌ id t.seen_openlink_ids

unfoldable pub mark_openlink_seen : Text → SessionTracker → SessionTracker
mark_openlink_seen id t = record t {
  seen_openlink_ids = limited (insert_new ◌=t◌ id t.seen_openlink_ids);
}

unfoldable pub is_hoppie_seen : ℕ → SessionTracker → Bool
is_hoppie_seen hash t = contains ◌==◌ hash t.seen_hoppie_hashes

unfoldable pub mark_hoppie_seen : ℕ → SessionTracker → SessionTracker
mark_hoppie_seen hash t = record t {
  seen_hoppie_hashes = limited (insert_new ◌==◌ hash t.seen_hoppie_hashes);
}

abbrev without : SessionKey → MinMap → MinMap
without key m k n = if k =k key then none else m k n

unfoldable pub reset_session : SessionKey → SessionTracker → SessionTracker
reset_session key t = record t {
  min_counters = λ k. if key =k k then none else t.min_counters k;
  min_map_hoppie_to_openlink = without key t.min_map_hoppie_to_openlink;
  min_map_openlink_to_hoppie = without key t.min_map_openlink_to_hoppie;
}
