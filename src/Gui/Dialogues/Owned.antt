-- ===== src/Gui/Dialogues/Owned.antt =====
-- crates/openlink-gui/src/components/atc_view.rs: the dialogues that the first loop follows belong to
-- the aircraft of their keys.
use mathlib.Core.List.{Memᴰ}
use openlink.Prelude.{
  ℕ, zero, suc, ◌+◌, ◌≡◌, refl, sym, inl, inr, Text, Option, none, some, List, [], ◌∷◌, OnSome, All,
  Bool-cases, arith,
}
use openlink.Gui.Received.{ReceivedMessage}
use openlink.Gui.Intents.{dialogue_callsign, is_dialogue_candidate}
use openlink.Gui.Dialogues.{
  DialogueTrack, DialogueKey, Tracking, put_key, track_of, track_round, track_all, message_at, ◌=d◌,
}

pub message_at-About :
    (i : ℕ) (ms : List ReceivedMessage) → OnSome (λ m. Memᴰ m ms) (message_at i ms)
message_at-About i [] = tt
message_at-About zero (m ∷ ms) = Memᴰ.head refl
message_at-About (suc i) (m ∷ ms) = later (message_at i ms) (message_at-About i ms)
  where
    later :
        (o : Option ReceivedMessage) → OnSome (λ x. Memᴰ x ms) o → OnSome (λ x. Memᴰ x (m ∷ ms)) o
    later none h = tt
    later (some x) h = Memᴰ.tail h

-- The latest message of the dialogue is about the aircraft of its key.
abbrev pub Owned : List ReceivedMessage → DialogueKey × DialogueTrack → Type 0
Owned messages e =
    OnSome (λ m. dialogue_callsign m ≡ some e.0.callsign) (message_at e.1.last_index messages)

put_key-All :
    {E : Type 0} (P : DialogueKey × E → Type 0) (k : DialogueKey) (e : E)
    (es : List (DialogueKey × E))
    → P (k, e)
    → All P es
    → All P (put_key k e es)
put_key-All P k e [] h hs = (h, tt)
put_key-All P k e ((j, f) ∷ es) h (g, hs) = elim (Bool-cases (j =d k)) [
  | inl p ↦ rw p (h, hs)
  | inr p ↦ rw p (g, put_key-All P k e es h hs)
]

track_of-Owned :
    (messages : List ReceivedMessage) (idx : ℕ) (msg : ReceivedMessage) (cs : Option Text)
    (min : Option ℕ) (t : Tracking)
    → dialogue_callsign msg ≡ cs
    → message_at idx messages ≡ some msg
    → All (Owned messages) t.dialogues
    → All (Owned messages) (track_of idx msg cs min t).dialogues
track_of-Owned messages idx msg (some cs) (some min) t c at_ h =
    put_key-All (Owned messages) _ _ t.dialogues (rw at_ c) h
track_of-Owned messages idx msg none (some min) t c at_ h = h
track_of-Owned messages idx msg none none t c at_ h = h
track_of-Owned messages idx msg (some cs) none t c at_ h = h

track_round-Owned :
    (messages : List ReceivedMessage) (idx : ℕ) (msg : ReceivedMessage) (t : Tracking)
    → message_at idx messages ≡ some msg
    → All (Owned messages) t.dialogues
    → All (Owned messages) (track_round idx msg t).dialogues
unfolding track_round
track_round-Owned messages idx msg t at_ h = elim (Bool-cases (is_dialogue_candidate msg)) [
  | inl p ↦ rw p (track_of-Owned messages idx msg (dialogue_callsign msg) msg.min t refl at_ h)
  | inr p ↦ rw p h
]

pub track_all-Owned :
    (messages : List ReceivedMessage) (idx : ℕ) (msgs : List ReceivedMessage) (t : Tracking)
    → ((i : ℕ) → message_at i msgs ≡ message_at (idx + i) messages)
    → All (Owned messages) t.dialogues
    → All (Owned messages) (track_all idx msgs t).dialogues
unfolding track_all
track_all-Owned messages idx [] t same h = h
track_all-Owned messages idx (msg ∷ msgs) t same h =
    let z : idx + 0 ≡ idx = omega arith in
    let first : some msg ≡ message_at (idx + 0) messages = same 0 in
    let first' : some msg ≡ message_at idx messages = rw z at first in
    track_all-Owned messages (suc idx) msgs (track_round idx msg t)
      (λ i.
        let n : idx + suc i ≡ suc idx + i = omega arith in
        let next : message_at i msgs ≡ message_at (idx + suc i) messages = same (suc i) in
        rw n at next)
      (track_round-Owned messages idx msg t (sym first') h)
