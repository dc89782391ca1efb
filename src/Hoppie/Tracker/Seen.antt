-- ===== src/Hoppie/Tracker/Seen.antt =====
-- crates/openlink-hoppie/src/session.rs: the sets of messages that were bridged already.
use openlink.Prelude.{
  ◌+◌, ◌≤◌, ◌≡◌, refl, inl, inr, Text, Bool, false, not, ◌&&◌, ◌||◌, List, length, ltb, ◌=t◌,
  =t_iff, =t_refl, arith, Bool-cases,
}
use openlink.Hoppie.Tracker.{
  SessionTracker, contains, insert_new, is_openlink_seen, mark_openlink_seen,
}

-- The set is full, and the identifier is not in it.
abbrev pub overflows : Text → SessionTracker → Bool
overflows id t = not (is_openlink_seen id t) && ltb 9999 (length t.seen_openlink_ids)

insert-lookup :
    (i j : Text) (xs : List Text)
    → contains ◌=t◌ j (insert_new ◌=t◌ i xs) ≡ (i =t j || contains ◌=t◌ j xs)
insert-lookup i j xs = elim (Bool-cases (contains ◌=t◌ i xs)) [
  | inl p ↦ elim (Bool-cases (i =t j)) [
    | inl q ↦ let e = (=t_iff i j).0 q in rw p (rw (q, ← e) p)
    | inr q ↦ rw (p, q) refl
  ]
  | inr p ↦ elim (Bool-cases (i =t j)) [
    | inl q ↦ let e = (=t_iff i j).0 q in rw (p, q) (rw (← e, =t_refl i) refl)
    | inr q ↦
        let q' : (j =t i) ≡ false = ground (arith, =t_iff i j, =t_iff j i) in rw (p, q, q') refl
  ]
]

-- The set of bridged messages never has more than 10 000 members. Marking a message makes it seen and
-- leaves every other as it was; but if the set has 10 000 members and the message is new, then no
-- message is seen afterwards, the marked one included.
pub is_seen-mark_seen :
    (i j : Text) (t : SessionTracker)
    → length t.seen_openlink_ids ≤ 10000
    → (length (mark_openlink_seen i t).seen_openlink_ids ≤ 10000)
      × (is_openlink_seen j (mark_openlink_seen i t)
          ≡ (not (overflows i t) && (i =t j || is_openlink_seen j t)))
unfolding mark_openlink_seen is_openlink_seen
is_seen-mark_seen i j t h = elim (Bool-cases (contains ◌=t◌ i t.seen_openlink_ids)) [
  | inl p ↦ ground (arith, insert-lookup i j t.seen_openlink_ids)
  | inr p ↦ elim (Bool-cases (ltb 9999 (length t.seen_openlink_ids))) [
    | inl q ↦ ground arith
    | inr q ↦ ground (arith, insert-lookup i j t.seen_openlink_ids)
  ]
]

-- Marking a message, while the set has room: the set grows by at most one, the message is seen, and
-- none is forgotten.
pub mark_seen-room :
    (i j : Text) (t : SessionTracker)
    → length t.seen_openlink_ids + 1 ≤ 10000
    → (length (mark_openlink_seen i t).seen_openlink_ids ≤ length t.seen_openlink_ids + 1)
      × (is_openlink_seen j (mark_openlink_seen i t) ≡ (i =t j || is_openlink_seen j t))
unfolding mark_openlink_seen
mark_seen-room i j t h =
    let (_, same) = is_seen-mark_seen i j t (omega arith) in
    let room : overflows i t ≡ false = ground arith in
    let seen : is_openlink_seen j (mark_openlink_seen i t) ≡ (i =t j || is_openlink_seen j t) =
      rw room at same in
    elim (Bool-cases (contains ◌=t◌ i t.seen_openlink_ids)) [
      | inl p ↦ (ground arith, seen)
      | inr p ↦ (ground arith, seen)
    ]
