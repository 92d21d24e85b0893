-- ===== src/Logs/Lines.antt =====
-- The split of a byte buffer into lines, by which `Follow` of internal/logs/stream.go works.
use mathlib.Core.List.{map-append}
use flint2_xray_web_console.Base.{
  ℕ, ◌≡◌, refl, false, List, [], ◌∷◌, ◌++◌, Text, ◌==◌, if◌then◌else◌, map, Bool-cases, inl, inr,
  ap, ◌∙◌, true,
}

abbrev pub newline : ℕ
newline = 10

-- a byte before what is already split
abbrev pub push : ℕ → List Text × Text → List Text × Text
push c ([], rest) = ([], c ∷ rest)
push c (l ∷ ls, rest) = ((c ∷ l) ∷ ls, rest)

-- The lines that end in the buffer, without their newlines, and what follows the last newline.
unfoldable pub raw_lines : Text → List Text × Text
raw_lines [] = ([], [])
raw_lines (c ∷ s) = let r = raw_lines s in if c == newline then ([] ∷ r.0, r.1) else push c r

-- A carriage return at the end goes.
unfoldable pub strip_cr : Text → Text
strip_cr [] = []
strip_cr (c ∷ []) = if c == 13 then [] else c ∷ []
strip_cr (c ∷ d ∷ s) = c ∷ strip_cr (d ∷ s)

-- The lines of a buffer and the carry.
unfoldable pub lines : Text → List Text × Text
unfolding raw_lines strip_cr
lines s = let (ls, rest) = raw_lines s in (map strip_cr ls, rest)

abbrev after : List Text × Text → Text → List Text × Text
after (ls, rest) t = (ls ++ (raw_lines (rest ++ t)).0, (raw_lines (rest ++ t)).1)

push-after :
    (c : ℕ) (r : List Text × Text) (t : Text)
    → (c == newline) ≡ false
    → push c (after r t) ≡ after (push c r) t
push-after c ([], rest) t h = unfold raw_lines in rw h refl
push-after c (l ∷ ls, rest) t h = refl

raw_lines_end :
    (c : ℕ) (s : Text)
    → (c == newline) ≡ true
    → raw_lines (c ∷ s) ≡ ([] ∷ (raw_lines s).0, (raw_lines s).1)
raw_lines_end c s h = unfold raw_lines in rw h refl

raw_lines-push :
    (c : ℕ) (s : Text) → (c == newline) ≡ false → raw_lines (c ∷ s) ≡ push c (raw_lines s)
raw_lines-push c s h = unfold raw_lines in rw h refl

-- Bytes that come later are split as if they had come with the earlier ones.
pub raw_lines-append : (s t : Text) → raw_lines (s ++ t) ≡ after (raw_lines s) t
raw_lines-append [] t = unfold raw_lines in refl
raw_lines-append (c ∷ s) t = elim (Bool-cases (c == newline)) [
  | inl end ↦ rw (raw_lines_end c (s ++ t) end, raw_lines_end c s end, raw_lines-append s t) refl
  | inr other ↦
      rw (raw_lines-push c (s ++ t) other, raw_lines-push c s other)
        (ap (push c) (raw_lines-append s t) ∙ push-after c (raw_lines s) t other)
]

-- So are the lines that a reader gets: those of the earlier bytes, then those of the carry with the
-- later bytes behind it.
pub lines-append :
    (s t : Text)
    → lines (s ++ t) ≡ ((lines s).0 ++ (lines ((lines s).1 ++ t)).0, (lines ((lines s).1 ++ t)).1)
unfolding lines
lines-append s t = rw (raw_lines-append s t) (rw map-append refl)

rest-raw_lines : (s : Text) → raw_lines (raw_lines s).1 ≡ ([], (raw_lines s).1)
rest-raw_lines [] = unfold raw_lines in refl
rest-raw_lines (c ∷ s) = elim (Bool-cases (c == newline)) [
  | inl end ↦ rw (raw_lines_end c s end) (rest-raw_lines s)
  | inr other ↦ rw (raw_lines-push c s other) (push-rest c (raw_lines s) other (rest-raw_lines s))
]
  where
    push-rest :
        (c : ℕ) (r : List Text × Text)
        → (c == newline) ≡ false
        → raw_lines r.1 ≡ ([], r.1)
        → raw_lines (push c r).1 ≡ ([], (push c r).1)
    push-rest c ([], rest) other h = rw (raw_lines-push c rest other, h) refl
    push-rest c (l ∷ ls, rest) other h = h

-- The carry holds no newline.
pub carry-lines : (s : Text) → lines (lines s).1 ≡ ([], (lines s).1)
unfolding lines
carry-lines s = rw (rest-raw_lines s) refl
