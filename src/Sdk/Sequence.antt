-- ===== src/Sdk/Sequence.antt =====
-- crates/openlink-sdk/src/client.rs: the MIN sequences of `OpenLinkClient`. A lookup function stands
-- for the hash map behind the mutex; the lock is held through each of the two operations.
use openlink.Prelude.{
  ℕ, ◌+◌, ◌%◌, ◌≡◌, refl, inl, inr, Text, ◌||◌, Option, none, some, List, [], ◌∷◌, ◌++◌, ltb, leb,
  ◌==◌, ◌=t◌, =t_iff, unwrap_or, if◌then◌else◌, arith, Bool-cases,
}

abbrev pub MinSequences : Type 0
MinSequences = Text → Option ℕ

abbrev pub no_sequences : MinSequences
no_sequences key = none

-- `HashMap::insert`
abbrev pub insert : Text → ℕ → MinSequences → MinSequences
insert key n sequences k = if key =t k then some n else sequences k

-- `format!("{}>{}", sender, receiver)`
abbrev pub sequence_key : Text → Text → Text
sequence_key sender receiver = sender ++ (62 ∷ receiver)

-- The MIN that an entry stands for, and the entry behind it.
abbrev current_min : ℕ → ℕ
current_min entry = if entry == 0 || ltb 63 entry then 1 else entry

abbrev following_min : ℕ → ℕ
following_min current = if leb 63 current then 1 else current + 1

unfoldable pub next_min_for_session : Text → Text → MinSequences → MinSequences × ℕ
next_min_for_session sender receiver sequences =
    let key = sequence_key sender receiver in
    let current = current_min (unwrap_or 1 (sequences key)) in
    (insert key (following_min current) sequences, current)

unfoldable pub reset_min_for_session : Text → Text → MinSequences → MinSequences
reset_min_for_session sender receiver sequences = insert (sequence_key sender receiver) 1 sequences

-- The calls that clients make, in the order in which they get hold of the mutex.
pub data Call : Type 0 where
  next : Text → Text → Call
  reset : Text → Text → Call

unfoldable pub run : List Call → MinSequences → MinSequences
run [] m = m
run (next sender receiver ∷ calls) m = run calls (next_min_for_session sender receiver m).0
run (reset sender receiver ∷ calls) m = run calls (reset_min_for_session sender receiver m)

-- How many MINs a sequence has handed out since it was last reset, after `n` at the start.
unfoldable pub since_reset : Text → ℕ → List Call → ℕ
since_reset key n [] = n
since_reset key n (next sender receiver ∷ calls) =
    let m = if sequence_key sender receiver =t key then n + 1 else n in since_reset key m calls
since_reset key n (reset sender receiver ∷ calls) =
    let m = if sequence_key sender receiver =t key then 0 else n in since_reset key m calls

-- The entry of a sequence that has handed out `n` MINs.
abbrev Counts : ℕ → Option ℕ → Type 0
Counts n entry = unwrap_or 1 entry ≡ n % 63 + 1

next-Counts :
    (key sender receiver : Text) (n : ℕ) (m : MinSequences)
    → Counts n (m key)
    → Counts
        (if sequence_key sender receiver =t key then n + 1 else n)
        ((next_min_for_session sender receiver m).0 key)
unfolding next_min_for_session
next-Counts key sender receiver n m h = elim (Bool-cases (sequence_key sender receiver =t key)) [
  | inl p ↦ rw p (rw ((=t_iff _ _).0 p) (ground arith))
  | inr p ↦ rw p h
]

reset-Counts :
    (key sender receiver : Text) (n : ℕ) (m : MinSequences)
    → Counts n (m key)
    → Counts
        (if sequence_key sender receiver =t key then 0 else n)
        (reset_min_for_session sender receiver m key)
unfolding reset_min_for_session
reset-Counts key sender receiver n m h = elim (Bool-cases (sequence_key sender receiver =t key)) [
  | inl p ↦ rw p refl
  | inr p ↦ rw p h
]

run-Counts :
    (key : Text) (calls : List Call) (n : ℕ) (m : MinSequences)
    → Counts n (m key)
    → Counts (since_reset key n calls) (run calls m key)
unfolding run since_reset
run-Counts key [] n m h = h
run-Counts key (next sender receiver ∷ calls) n m h =
    run-Counts key calls _ _ (next-Counts key sender receiver n m h)
run-Counts key (reset sender receiver ∷ calls) n m h =
    run-Counts key calls _ _ (reset-Counts key sender receiver n m h)

-- Whatever calls came before, in whatever order, for whatever pairs of callsigns, the next MIN that a
-- client hands out for a pair is `n % 63 + 1`, where `n` MINs have been handed out under the key of
-- the pair since that key was last reset: the MINs run from 1 to 63 and start again at 1.
pub next_min_for_session-run :
    (calls : List Call) (sender receiver : Text)
    → (next_min_for_session sender receiver (run calls no_sequences)).1
      ≡ since_reset (sequence_key sender receiver) 0 calls % 63 + 1
unfolding next_min_for_session
next_min_for_session-run calls sender receiver =
    let h = run-Counts (sequence_key sender receiver) calls 0 no_sequences refl in
    rw h (ground arith)
