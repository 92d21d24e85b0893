-- ===== src/Logs/Follow/Growth.antt =====
-- What is sent while a file only grows.
use flint2_xray_web_console.Base.{
  ℕ, ◌≡◌, true, none, some, List, [], ◌∷◌, ◌++◌, Text, length, ◌-◌, ◌≤◌, arith, length-append,
  append_assoc, append-nil, leb, refl, false, sym,
}
use flint2_xray_web_console.Logs.Follow.{
  start, Cursor, tick, found, failed, located, advance, is_rotated, consume,
}
use flint2_xray_web_console.Logs.Lines.{lines, lines-append, carry-lines, raw_lines}
use flint2_xray_web_console.Base.Slices.{take, drop, drop-append, take-append}

-- What may happen before a tick, and how the tick finds it: bytes are appended and the file is
-- read, with more bytes behind them that came after `Stat`; or bytes are appended and the file
-- cannot be opened; or `Stat` fails.
pub data Event : Type 0 where
  read : Text → Text → Event
  unopened : Text → Event
  unseen : Text → Event

-- the bytes appended
unfoldable pub appended : List Event → Text
appended [] = []
appended (read s more ∷ es) = s ++ appended es
appended (unopened s ∷ es) = s ++ appended es
appended (unseen s ∷ es) = s ++ appended es

-- a tick on a file that held `old`, and what the file holds then
unfoldable pub tick_at : ℕ → Text → Event → Cursor → List Text × Cursor
unfolding tick
tick_at ino old (read s more) c = tick (found ino (length (old ++ s))) (some ((old ++ s) ++ more)) c
tick_at ino old (unopened s) c = tick (found ino (length (old ++ s))) none c
tick_at ino old (unseen s) c = tick failed none c

-- the ticks of a file with this inode that held `old`
unfoldable pub run : ℕ → Text → List Event → Cursor → List Text × Cursor
run ino old [] c = ([], c)
run ino old (e ∷ es) c =
    let (ls, c') = tick_at ino old e c in
    let (ls', c'') = run ino (old ++ appended (e ∷ [])) es c' in (ls ++ ls', c'')

-- the cursor that has read these bytes of the file
abbrev pub at : ℕ → Text → Text → Cursor
at ino done carry = record { pos = length done; ino = ino; carry = carry; opened = true }

located_at :
    (ino size : ℕ) (done carry : Text)
    → length done ≤ size
    → located ino size (at ino done carry) ≡ at ino done carry
unfolding located is_rotated
located_at ino size done carry h = ground arith

-- the bytes that `ReadAt` gives
slice :
    (done fresh more : Text)
    → take (length (done ++ fresh) - length done) (drop (length done) ((done ++ fresh) ++ more))
      ≡ fresh
slice done fresh more =
    let e : length (done ++ fresh) - length done ≡ length fresh =
      omega (arith, length-append done fresh) in
    rw (e, append_assoc done fresh more, drop-append done (fresh ++ more)) (take-append fresh more)

advance_at :
    (ino : ℕ) (done carry fresh more : Text)
    → lines carry ≡ ([], carry)
    → advance (length (done ++ fresh)) (some ((done ++ fresh) ++ more)) (at ino done carry)
      ≡ ((lines (carry ++ fresh)).0, at ino (done ++ fresh) (lines (carry ++ fresh)).1)
advance_at ino done carry [] more h =
    rw (append-nil done, append-nil carry, h) (unfold advance in ground arith)
advance_at ino done carry (c ∷ s) more h =
    let fresh = c ∷ s in
    let longer : leb (length (done ++ fresh)) (length done) ≡ false =
      ground (arith, length-append done fresh) in
    unfold advance in
    rw (longer, slice done fresh more) (unfold consume in rw (length-append done fresh) refl)

-- the ticks from a cursor that has not seen the last `pending` bytes
pub record Sent (ino : ℕ) (done pending carry : Text) (es : List Event) (r : List Text × Cursor)
    : Type 0 where
  pub consumed : Text
  pub left : Text
  pub whole : pending ++ appended es ≡ consumed ++ left
  pub sent : r.0 ≡ (lines (carry ++ consumed)).0
  pub cursor : r.1 ≡ at ino (done ++ consumed) (lines (carry ++ consumed)).1

read_at :
    (ino : ℕ) (old done carry pending s more : Text)
    → old ≡ done ++ pending
    → lines carry ≡ ([], carry)
    → tick_at ino old (read s more) (at ino done carry) ≡ (
      (lines (carry ++ (pending ++ s))).0,
      at ino (done ++ (pending ++ s)) (lines (carry ++ (pending ++ s))).1,
    )
unfolding tick_at tick
read_at ino old done carry pending s more e h =
    rw
      (
        e,
        append_assoc done pending s,
        located_at ino (length (done ++ (pending ++ s))) done carry
            (omega (arith, length-append done (pending ++ s))),
      )
      (advance_at ino done carry (pending ++ s) more h)

unopened_at :
    (ino : ℕ) (old done carry pending s : Text)
    → old ≡ done ++ pending
    → tick_at ino old (unopened s) (at ino done carry) ≡ ([], at ino done carry)
unfolding tick_at tick advance
unopened_at ino old done carry pending s e =
    rw
      (
        e,
        append_assoc done pending s,
        located_at ino (length (done ++ (pending ++ s))) done carry
            (omega (arith, length-append done (pending ++ s))),
      )
      (ground arith)

-- a tick before others, in terms of what it sends and the cursor that it leaves
run_step :
    (ino : ℕ) (old : Text) (e : Event) (es : List Event) (c c' : Cursor) (ls : List Text)
    → tick_at ino old e c ≡ (ls, c')
    → run ino old (e ∷ es) c ≡ (
      ls ++ (run ino (old ++ appended (e ∷ [])) es c').0,
      (run ino (old ++ appended (e ∷ [])) es c').1,
    )
unfolding run
run_step ino old e es c c' ls h = rw h refl

lines_then :
    (carry fresh more : Text)
    → lines (carry ++ (fresh ++ more)) ≡ (
      (lines (carry ++ fresh)).0 ++ (lines ((lines (carry ++ fresh)).1 ++ more)).0,
      (lines ((lines (carry ++ fresh)).1 ++ more)).1,
    )
lines_then carry fresh more =
    rw (← append_assoc carry fresh more) (lines-append (carry ++ fresh) more)

after_read :
    (ino : ℕ) (done pending carry s more : Text) (es : List Event) (r : List Text × Cursor)
    → Sent ino (done ++ (pending ++ s)) [] (lines (carry ++ (pending ++ s))).1 es r
    → Sent ino done pending carry
        (read s more ∷ es)
        ((lines (carry ++ (pending ++ s))).0 ++ r.0, r.1)
after_read ino done pending carry s more es r later =
    let fresh = pending ++ s in
    record {
      consumed = fresh ++ later.consumed;
      left = later.left;
      whole =
          unfold appended in
          rw (← append_assoc pending s (appended es), later.whole)
            (sym (append_assoc fresh later.consumed later.left));
      sent = rw (lines_then carry fresh later.consumed, later.sent) refl;
      cursor =
          rw
            (
              lines_then carry fresh later.consumed,
              later.cursor,
              append_assoc done fresh later.consumed,
            )
            refl;
    }

-- a tick that reads nothing, in terms of the ticks after it
after_unread :
    (ino : ℕ) (old done pending carry s : Text) (e : Event) (es : List Event)
    → appended (e ∷ []) ≡ s
    → appended (e ∷ es) ≡ s ++ appended es
    → tick_at ino old e (at ino done carry) ≡ ([], at ino done carry)
    → Sent ino done (pending ++ s) carry es (run ino (old ++ s) es (at ino done carry))
    → Sent ino done pending carry (e ∷ es) (run ino old (e ∷ es) (at ino done carry))
after_unread ino old done pending carry s e es h₁ hs skipped later =
    rw (run_step ino old e es _ _ _ skipped, h₁)
      (record {
        consumed = later.consumed;
        left = later.left;
        whole = rw (hs, ← append_assoc pending s (appended es)) later.whole;
        sent = later.sent;
        cursor = later.cursor;
      })

run_sends :
    (ino : ℕ) (old done pending carry : Text) (es : List Event)
    → old ≡ done ++ pending
    → lines carry ≡ ([], carry)
    → Sent ino done pending carry es (run ino old es (at ino done carry))
unfolding appended
run_sends ino old done pending carry [] e h = record {
  consumed = [];
  left = pending;
  whole = append-nil pending;
  sent = unfold run in rw (append-nil carry, h) refl;
  cursor = unfold run in rw (append-nil carry, append-nil done, h) refl;
}
run_sends ino old done pending carry (read s more ∷ es) e h =
    let fresh = pending ++ s in
    let seen : old ++ appended (read s more ∷ []) ≡ (done ++ fresh) ++ [] =
      rw (e, append-nil s, append-nil (done ++ fresh)) (append_assoc done pending s) in
    rw (run_step ino old (read s more) es _ _ _ (read_at ino old done carry pending s more e h)) (
      after_read ino done pending carry s more es _ (
        run_sends ino (old ++ appended (read s more ∷ [])) (done ++ fresh) []
          (lines (carry ++ fresh)).1 es seen (carry-lines (carry ++ fresh))))
run_sends ino old done pending carry (unopened s ∷ es) e h =
    after_unread ino old done pending carry s (unopened s) es (append-nil s) refl
      (unopened_at ino old done carry pending s e)
      (run_sends ino (old ++ s) done (pending ++ s) carry es (rw e (append_assoc done pending s)) h)
run_sends ino old done pending carry (unseen s ∷ es) e h =
    after_unread ino old done pending carry s (unseen s) es (append-nil s) refl
      (unfold tick_at in unfold tick in refl)
      (run_sends ino (old ++ s) done (pending ++ s) carry es (rw e (append_assoc done pending s)) h)

appended-append :
    (old : Text) (e : Event) (es : List Event)
    → (old ++ appended (e ∷ [])) ++ appended es ≡ old ++ appended (e ∷ es)
unfolding appended
appended-append old (read s more) es = rw (append-nil s) (append_assoc old s (appended es))
appended-append old (unopened s) es = rw (append-nil s) (append_assoc old s (appended es))
appended-append old (unseen s) es = rw (append-nil s) (append_assoc old s (appended es))

run-append :
    (ino : ℕ) (old : Text) (es : List Event) (e : Event) (c : Cursor)
    → let r = run ino old es c in
      let q = tick_at ino (old ++ appended es) e r.1 in
      run ino old (es ++ (e ∷ [])) c ≡ (r.0 ++ q.0, q.1)
unfolding run appended
run-append ino old [] e c = rw (append-nil old, append-nil (tick_at ino old e c).0) refl
run-append ino old (e' ∷ es) e c =
    rw
      (
        run-append ino (old ++ appended (e' ∷ [])) es e (tick_at ino old e' c).1,
        appended-append old e' es,
      )
      (rw
        (← append_assoc (tick_at ino old e' c).0
          (run ino (old ++ appended (e' ∷ [])) es (tick_at ino old e' c).1).0)
        refl)

-- From the end of a file that holds `old`, whatever is appended to it and whichever ticks fail to
-- find or to open it: some prefix of what was appended has been consumed, and the lines sent are
-- the complete lines of that prefix, in their order and each once; the bytes of its last,
-- incomplete line are carried.
pub follow_growth :
    (ino : ℕ) (old : Text) (es : List Event)
    → Sent ino old [] [] es (run ino old es (start (found ino (length old))))
unfolding start
follow_growth ino old es =
    run_sends ino old old [] [] es (sym (append-nil old)) (unfold lines in unfold raw_lines in refl)

-- The same when the last tick reads the file: nothing is left, and the lines sent are all the
-- complete lines that were appended up to that tick, those after a failed tick included.
pub follow_reads :
    (ino : ℕ) (old s more : Text) (es : List Event)
    → let new = appended es ++ s in
      run ino old (es ++ (read s more ∷ [])) (start (found ino (length old)))
      ≡ ((lines new).0, at ino (old ++ new) (lines new).1)
follow_reads ino old s more es =
    let r = follow_growth ino old es in
    let all : appended es ≡ r.consumed ++ r.left = r.whole in
    let seen : old ++ appended es ≡ (old ++ r.consumed) ++ r.left =
      rw all (sym (append_assoc old r.consumed r.left)) in
    rw
      (
        run-append ino old es (read s more) (start (found ino (length old))),
        r.sent,
        r.cursor,
        read_at ino (old ++ appended es) (old ++ r.consumed) (lines r.consumed).1 r.left s more seen
            (carry-lines r.consumed),
        all,
        append_assoc r.consumed r.left s,
        lines_then [] r.consumed (r.left ++ s),
        append_assoc old r.consumed (r.left ++ s),
      )
      refl
