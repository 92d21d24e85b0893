-- ===== src/Panel/Logs.antt =====
-- The snapshot of internal/http/logs.go: GET /api/logs/{which}.
pub mod Tail
pub mod Stream
pub mod Events
use flint2_xray_web_console.Base.{
  ℕ, ◌+◌, ◌-◌, ◌*◌, Bool, true, false, Option, none, some, List, [], ◌∷◌, ◌++◌, Text, codes,
  text_eq, ok, err, fail, if◌then◌else◌, is_nil, ltb, length, ◌&&◌, ◌==◌,
}
use flint2_xray_web_console.Base.Errors.{Result}
use flint2_xray_web_console.Base.Int.{ℤ, pos, negsuc}
use flint2_xray_web_console.Base.Decimal.{atoi}
use flint2_xray_web_console.Base.Slices.{drop}
use flint2_xray_web_console.Logs.Lines.{lines, strip_cr}
use flint2_xray_web_console.Panel.Types.{Config, Response, reply, reply_error, logs_body}

-- How the calls on a log file end: it is missing, cannot be opened, measured or sought in, or it
-- is read, and the reading fails before its end or not. The file does not grow between the calls.
pub data LogFile : Type 0 where
  missing unopened unmeasured unsought : LogFile
  opened : Text → Bool → LogFile

-- The tokens of a `bufio.Scanner`: the lines, and what follows the last newline. No token is longer
-- than the scanner's buffer of a megabyte, since the window is half of that.
unfoldable pub scan_lines : Text → List Text
unfolding lines strip_cr
scan_lines s = let (ls, rest) = lines s in if is_nil rest then ls else ls ++ (strip_cr rest ∷ [])

-- `strings.TrimRight(s, "\r")`
unfoldable pub trim_cr : Text → Text
trim_cr [] = []
trim_cr (c ∷ s) = let r = trim_cr s in if is_nil r && c == 13 then [] else c ∷ r

-- the end of a list
unfoldable pub keep_last : ℕ → List Text → List Text
unfolding drop
keep_last n l = if ltb n (length l) then drop (length l - n) l else l

-- the loop over the tokens; `first` asks to skip one
unfoldable pub collect : ℕ → Bool → List Text → List Text → List Text
unfolding trim_cr keep_last
collect max first acc [] = acc
collect max true acc (t ∷ ts) = collect max false acc ts
collect max false acc (t ∷ ts) = collect max false (keep_last max (acc ++ (trim_cr t ∷ []))) ts

-- `tailFile`
unfoldable pub tail_file : LogFile → ℕ → ℕ → Result (List Text × Bool)
unfolding scan_lines collect drop
tail_file missing max budget = ok ([], false)
tail_file unopened max budget = err (fail "open")
tail_file unmeasured max budget = err (fail "stat")
tail_file unsought max budget = err (fail "seek")
tail_file (opened s fails) max budget =
    let truncated = ltb budget (length s) in
    if fails
    then err (fail "read")
    else ok (
      collect max truncated [] (scan_lines (if truncated then drop (length s - budget) s else s)),
      truncated,
    )

abbrev pub budget : ℕ
budget = 512 * 1024

-- the path of the log, empty where it is not configured
unfoldable pub log_path : Text → Config → Option Text
unfolding text_eq
log_path which cfg =
    if text_eq which (codes "error")
    then some cfg.log_error
    else if text_eq which (codes "access")
    then some cfg.log_access
    else none

-- The path, or the answer that refuses.
unfoldable pub checked_path : Text → Config → Result Text
unfolding log_path
checked_path which cfg = elim (log_path which cfg) [
  | none ↦ err (fail "unknown log; use 'error' or 'access'")
  | some path ↦ if is_nil path then err (fail "log path is not configured") else ok path
]

-- the `tail` parameter, empty where it is not given; `none` is refused
unfoldable pub tail_of : Text → Option ℕ
unfolding atoi
tail_of v = if is_nil v then some 200 else elim (atoi v) [
  | none ↦ none
  | some (negsuc n) ↦ none
  | some (pos n) ↦ if n == 0 then none else some (if ltb 5000 n then 5000 else n)
]

-- a handler's request, with what the file system holds
unfoldable pub handle_logs : (Text → LogFile) → Config → Text → Text → Response
unfolding checked_path tail_of tail_file
handle_logs files cfg which tail = elim (checked_path which cfg) [
  | err e ↦ reply_error 400 e
  | ok path ↦ elim (tail_of tail) [
    | none ↦ reply_error 400 (fail "tail must be a positive integer")
    | some n ↦ elim (tail_file (files path) n budget) [
      | err e ↦ reply_error 500 e
      | ok (ls, truncated) ↦ reply 200 (logs_body path ls truncated)
    ]
  ]
]
