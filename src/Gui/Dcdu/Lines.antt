-- ===== src/Gui/Dcdu/Lines.antt =====
-- crates/openlink-gui/src/components/a320_view.rs: the size of what `dcdu_wrap_24x4` returns.
use openlink.Prelude.{
  ℕ, zero, suc, ◌+◌, ◌-◌, ◌≤◌, ◌≡◌, refl, inl, inr, Text, false, ◌||◌, ◌&&◌, List, [], ◌∷◌, ◌++◌,
  length, ltb, leb, is_empty, is_space, trim_end, to_uppercase, All, Bool-cases, arith,
}
use openlink.Gui.Dcdu.{
  first_chars, chars_after, Page, flushed, place, cut, wrap_words, split_whitespace, spaces, padded,
  line_at, finished, dcdu_wrap_24x4,
}

-- A line that the display has room for.
abbrev Fits : Text → Type 0
Fits s = length s ≤ 24

-- The lines fit, and so does the one being filled.
abbrev PageFits : Page → Type 0
PageFits p = All Fits p.lines × Fits p.current

length-trim_end : (s : Text) → length (trim_end s) ≤ length s
unfolding trim_end
length-trim_end [] = omega arith
length-trim_end (c ∷ s) =
    let h = length-trim_end s in
    elim (Bool-cases (is_space c && is_empty (trim_end s))) [
      | inl p ↦ rw p (omega arith)
      | inr p ↦ rw p (omega arith)
    ]

length-append : (s t : Text) → length (s ++ t) ≡ length s + length t
length-append [] t = omega arith
length-append (c ∷ s) t = let h = length-append s t in omega arith

length-spaces : (n : ℕ) → length (spaces n) ≡ n
length-spaces zero = refl
length-spaces (suc n) = let h = length-spaces n in omega arith

length-padded : (s : Text) → Fits s → length (padded s) ≡ 24
length-padded s h =
    let a = length-append s (spaces (24 - length s)) in
    let b = length-spaces (24 - length s) in omega arith

length-first_chars : (n : ℕ) (s : Text) → length (first_chars n s) ≤ n
length-first_chars zero s = omega arith
length-first_chars (suc n) [] = omega arith
length-first_chars (suc n) (c ∷ s) = let h = length-first_chars n s in omega arith

length-chars_after : (n : ℕ) (s : Text) → length (chars_after n s) ≡ length s - n
length-chars_after zero s = omega arith
length-chars_after (suc n) [] = omega arith
length-chars_after (suc n) (c ∷ s) = let h = length-chars_after n s in omega arith

All-snoc : (ls : List Text) (l : Text) → All Fits ls → Fits l → All Fits (ls ++ (l ∷ []))
All-snoc [] l h f = (f, tt)
All-snoc (k ∷ ls) l (g, h) f = (g, All-snoc ls l h f)

flushed-Fits :
    (ls : List Text) (current : Text) → All Fits ls → Fits current → All Fits (flushed ls current)
flushed-Fits ls current h f =
    let t = length-trim_end current in
    elim (Bool-cases (is_empty current)) [
      | inl p ↦ rw p h
      | inr p ↦ rw p (All-snoc ls (trim_end current) h (omega arith))
    ]

place-PageFits :
    (word : Text) (ls : List Text) (current : Text)
    → Fits word
    → All Fits ls
    → Fits current
    → PageFits (place word ls current)
unfolding place
place-PageFits word ls current w h f =
    let t = length-trim_end current in
    let a = length-append current (32 ∷ word) in
    elim (Bool-cases (is_empty current)) [
      | inl e ↦ let short : ltb 24 (length word) ≡ false = ground arith in rw (e, short) (h, w)
      | inr e ↦ elim (Bool-cases (ltb 24 (length current + (1 + length word)))) [
        | inl p ↦ rw (e, p) (All-snoc ls (trim_end current) h (omega arith), w)
        | inr p ↦
            let room : length current + (1 + length word) ≤ 24 = ground arith in
            rw (e, p) (h, omega arith)
      ]
    ]

cut-PageFits :
    (fuel : ℕ) (word : Text) (ls : List Text) (current : Text)
    → length word ≤ fuel
    → All Fits ls
    → Fits current
    → PageFits (cut fuel word ls current)
unfolding cut
cut-PageFits zero word ls current e h f = place-PageFits word ls current (omega arith) h f
cut-PageFits (suc fuel) word ls current e h f =
    let filled = flushed ls current ++ (first_chars 24 word ∷ []) in
    let fits : All Fits filled =
      All-snoc (flushed ls current) (first_chars 24 word) (flushed-Fits ls current h f)
        (length-first_chars 24 word) in
    let shorter = length-chars_after 24 word in
    elim (Bool-cases (ltb 24 (length word))) [
      | inl long ↦ elim (Bool-cases (leb 4 (length filled))) [
        | inl p ↦ rw (long, p) (fits, omega arith)
        | inr p ↦
            let less : length (chars_after 24 word) ≤ fuel = ground arith in
            rw (long, p) (cut-PageFits fuel (chars_after 24 word) filled [] less fits (omega arith))
      ]
      | inr short ↦
          let w : length word ≤ 24 = ground arith in rw short (place-PageFits word ls current w h f)
    ]

wrap_words-PageFits : (ws : List Text) (p : Page) → PageFits p → PageFits (wrap_words ws p)
unfolding wrap_words
wrap_words-PageFits [] p h = h
wrap_words-PageFits (w ∷ ws) p (h, f) =
    let word = to_uppercase w in
    let next = cut (length word) word p.lines p.current in
    let fits = cut-PageFits (length word) word p.lines p.current (omega arith) h f in
    elim (Bool-cases (next.returned || leb 4 (length next.lines))) [
      | inl b ↦ rw b fits
      | inr b ↦ rw b (wrap_words-PageFits ws next fits)
    ]

finished-Fits : (p : Page) → PageFits p → All Fits (finished p)
finished-Fits p (h, f) = elim (Bool-cases p.returned) [
  | inl r ↦ rw r h
  | inr r ↦ elim (Bool-cases (ltb (length p.lines) 4)) [
    | inl b ↦ rw (r, b) (flushed-Fits p.lines p.current h f)
    | inr b ↦ rw (r, b) h
  ]
]

line_at-Fits : (i : ℕ) (ls : List Text) → All Fits ls → Fits (line_at i ls)
line_at-Fits i [] h = omega arith
line_at-Fits zero (l ∷ ls) (f, h) = f
line_at-Fits (suc i) (l ∷ ls) (f, h) = line_at-Fits i ls h

abbrev pub IsFull : Text → Type 0
IsFull line = length line ≡ 24

line-IsFull : (i : ℕ) (ls : List Text) → All Fits ls → IsFull (padded (line_at i ls))
line-IsFull i ls h = length-padded (line_at i ls) (line_at-Fits i ls h)

-- Whatever the text of a message: the page that the display shows has four lines, and each has exactly
-- 24 characters, also where a word is longer than a line and where the text does not fit.
pub dcdu_wrap_24x4-size :
    (s : Text) → (length (dcdu_wrap_24x4 s) ≡ 4) × All IsFull (dcdu_wrap_24x4 s)
unfolding dcdu_wrap_24x4
dcdu_wrap_24x4-size s =
    let start : Page = record { lines = []; current = []; returned = false } in
    let end = wrap_words (split_whitespace s) start in
    let fits =
      finished-Fits end (wrap_words-PageFits (split_whitespace s) start (tt, omega arith)) in
    let line = λ (i : ℕ). line-IsFull i (finished end) fits in
    (refl, (line 0, (line 1, (line 2, (line 3, tt)))))
