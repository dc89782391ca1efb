-- ===== src/Hoppie/Tracker/Counters.antt =====
-- crates/openlink-hoppie/src/session.rs: MINs and their maps, over any sequence of calls.
use openlink.Prelude.{
  ℕ, ◌+◌, ◌%◌, ◌≡◌, refl, inl, inr, Text, true, ◌&&◌, Option, none, some, List, [], ◌∷◌, ◌==◌,
  =t_iff, =t_refl, unwrap_or, if◌then◌else◌, arith, Bool-cases,
}
use openlink.Hoppie.Tracker.{
  SessionKey, ◌=k◌, SessionTracker, new_tracker, next_min, record_hoppie_min, record_openlink_min,
  translate_hoppie_mrn, mark_openlink_seen, mark_hoppie_seen, reset_session,
}

=k_iff : (j k : SessionKey) → (j =k k) ≡ true → j ≡ k
=k_iff j k h =
    let a = (=t_iff j.aircraft k.aircraft).0 (ground arith) in
    let s = (=t_iff j.station k.station).0 (ground arith) in cc

pub =k_refl : (k : SessionKey) → (k =k k) ≡ true
=k_refl k = rw (=t_refl k.aircraft) (=t_refl k.station)

-- The calls of a tracker.
pub data Call : Type 0 where
  next : SessionKey → Call
  from_hoppie from_openlink : SessionKey → ℕ → ℕ → Call
  seen_id : Text → Call
  seen_hash : ℕ → Call
  reset : SessionKey → Call

unfoldable pub step : Call → SessionTracker → SessionTracker
step (next k) t = (next_min k t).0
step (from_hoppie k n m) t = record_hoppie_min k n m t
step (from_openlink k n m) t = record_openlink_min k n m t
step (seen_id id) t = mark_openlink_seen id t
step (seen_hash h) t = mark_hoppie_seen h t
step (reset k) t = reset_session k t

unfoldable pub run : List Call → SessionTracker → SessionTracker
unfolding step
run [] t = t
run (c ∷ cs) t = run cs (step c t)

-- How many MINs were allocated for a key since its last reset, with `n` at the start.
abbrev allocated_by : SessionKey → Call → ℕ → ℕ
allocated_by key (next k) n = if k =k key then n + 1 else n
allocated_by key (reset k) n = if k =k key then 0 else n
allocated_by key _ n = n

unfoldable pub allocated : SessionKey → List Call → ℕ → ℕ
allocated key [] n = n
allocated key (c ∷ cs) n = allocated key cs (allocated_by key c n)

-- The counter of a key for which `n` MINs were allocated.
abbrev Counts : ℕ → Option ℕ → Type 0
Counts n counter = unwrap_or 0 counter % 63 ≡ n % 63

step-Counts :
    (key : SessionKey) (c : Call) (n : ℕ) (t : SessionTracker)
    → Counts n (t.min_counters key)
    → Counts (allocated_by key c n) ((step c t).min_counters key)
unfolding step next_min record_hoppie_min record_openlink_min mark_openlink_seen mark_hoppie_seen
    reset_session
step-Counts key (next k) n t h = elim (Bool-cases (k =k key)) [
  | inl p ↦ rw p (rw (=k_iff k key p) (ground arith))
  | inr p ↦ rw p h
]
step-Counts key (from_hoppie k m m') n t h = h
step-Counts key (from_openlink k m m') n t h = h
step-Counts key (seen_id id) n t h = h
step-Counts key (seen_hash x) n t h = h
step-Counts key (reset k) n t h = elim (Bool-cases (k =k key)) [
  | inl p ↦ rw p refl
  | inr p ↦ rw p h
]

run-Counts :
    (key : SessionKey) (cs : List Call) (n : ℕ) (t : SessionTracker)
    → Counts n (t.min_counters key)
    → Counts (allocated key cs n) ((run cs t).min_counters key)
unfolding run allocated
run-Counts key [] n t h = h
run-Counts key (c ∷ cs) n t h = run-Counts key cs _ _ (step-Counts key c n t h)

-- After any calls, on any sessions, the next MIN of a session is `n % 63 + 1`, where `n` MINs were
-- allocated for that session since it was last reset: the MINs run from 1 to 63 and start again at 1.
pub next_min-run :
    (cs : List Call) (key : SessionKey)
    → (next_min key (run cs new_tracker)).1 ≡ allocated key cs 0 % 63 + 1
unfolding next_min
next_min-run cs key = let h = run-Counts key cs 0 new_tracker refl in ground arith

-- What the last recording for a key and a MIN was, since the last reset of the key.
abbrev recorded_by : SessionKey → ℕ → Call → Option ℕ → Option ℕ
recorded_by key mrn (from_hoppie k n m) o = if k =k key && n == mrn then some m else o
recorded_by key mrn (reset k) o = if key =k k then none else o
recorded_by key mrn _ o = o

unfoldable pub recorded : SessionKey → ℕ → List Call → Option ℕ → Option ℕ
recorded key mrn [] o = o
recorded key mrn (c ∷ cs) o = recorded key mrn cs (recorded_by key mrn c o)

step-recorded :
    (key : SessionKey) (mrn : ℕ) (c : Call) (t : SessionTracker)
    → translate_hoppie_mrn key mrn (step c t)
      ≡ recorded_by key mrn c (translate_hoppie_mrn key mrn t)
unfolding step next_min record_hoppie_min record_openlink_min mark_openlink_seen mark_hoppie_seen
    reset_session translate_hoppie_mrn
step-recorded key mrn (next k) t = refl
step-recorded key mrn (from_hoppie k n m) t = refl
step-recorded key mrn (from_openlink k n m) t = refl
step-recorded key mrn (seen_id id) t = refl
step-recorded key mrn (seen_hash x) t = refl
step-recorded key mrn (reset k) t = refl

-- After any calls, the translation of a Hoppie reference number in a session is the one recorded
-- last for that session and number, if the session was not reset since, and else none.
pub translate_hoppie_mrn-run :
    (cs : List Call) (t : SessionTracker) (key : SessionKey) (mrn : ℕ)
    → translate_hoppie_mrn key mrn (run cs t) ≡ recorded key mrn cs (translate_hoppie_mrn key mrn t)
unfolding run recorded
translate_hoppie_mrn-run [] t key mrn = refl
translate_hoppie_mrn-run (c ∷ cs) t key mrn =
    rw (← step-recorded key mrn c t) (translate_hoppie_mrn-run cs (step c t) key mrn)
