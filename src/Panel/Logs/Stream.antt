-- ===== src/Panel/Logs/Stream.antt =====
-- The live stream of internal/http/logs.go: GET /api/logs/{which}/stream.
use flint2_xray_web_console.Base.{
  ℕ, Bool, Option, none, some, List, [], ◌∷◌, ◌++◌, Text, codes, ok, err, fail, if◌then◌else◌,
  is_nil, leb, ◌==◌,
}
use flint2_xray_web_console.Base.Int.{pos, negsuc}
use flint2_xray_web_console.Base.Decimal.{atoi}
use flint2_xray_web_console.Logs.Hub.{Hub, subscribe}
use flint2_xray_web_console.Panel.Types.{Config, Response, reply_error}
use flint2_xray_web_console.Panel.Logs.{LogFile, tail_file, checked_path, budget}

-- `strings.ReplaceAll(payload, "\r", "")`
unfoldable pub remove_cr : Text → Text
remove_cr [] = []
remove_cr (c ∷ s) = let rest = remove_cr s in if c == 13 then rest else c ∷ rest

-- `writeSSE`
unfoldable pub write_sse : Text → Text
unfolding remove_cr
write_sse payload = codes "data: " ++ (remove_cr payload ++ (10 ∷ 10 ∷ []))

-- the heartbeat
abbrev pub ping : Text
ping = codes ": ping" ++ (10 ∷ 10 ∷ [])

-- What `streamSSEFromChan` meets: a line, the heartbeat's tick, the end of the channel or of the
-- request.
pub data Input : Type 0 where
  line_in : Text → Input
  beat : Input
  closed : Input
  cancelled : Input

-- what it writes
unfoldable pub stream_sse : List Input → Text
unfolding write_sse
stream_sse [] = []
stream_sse (line_in l ∷ is) = write_sse l ++ stream_sse is
stream_sse (beat ∷ is) = ping ++ stream_sse is
stream_sse (closed ∷ is) = []
stream_sse (cancelled ∷ is) = []

-- the `backfill` parameter; one that is not in range counts as not given
unfoldable pub backfill_of : Text → ℕ
unfolding atoi
backfill_of v = if is_nil v then 200 else elim (atoi v) [
  | none ↦ 200
  | some (negsuc n) ↦ 200
  | some (pos n) ↦ if leb n 1000 then n else 200
]

-- the historical lines
unfoldable pub seed : LogFile → ℕ → Text
unfolding tail_file write_sse
seed file n =
    if n == 0
    then []
    else elim (tail_file file n budget) [ err e ↦ [] | ok (ls, truncated) ↦ write_lines ls ]
  where
    write_lines : List Text → Text
    write_lines [] = []
    write_lines (l ∷ ls) = write_sse l ++ write_lines ls

pub data Started : Type 0 where
  refused : Response → Started
  -- what is written first, and the hub that the request has subscribed to, or none if the request
  -- follows the file by itself
  streaming : Text → Option Hub → Started

-- The start of the stream, whose lines `streamSSEFromChan` then writes; `flushes` tells whether the
-- connection can flush.
unfoldable pub handle_logs_stream :
    (Text → LogFile) → Config → Bool → (Text → Option Hub) → Text → Text → Started
unfolding checked_path backfill_of seed subscribe
handle_logs_stream files cfg flushes hubs which backfill = elim (checked_path which cfg) [
  | err e ↦ refused (reply_error 400 e)
  | ok path ↦
      if flushes
      then streaming (seed (files path) (backfill_of backfill)) (subscribed (hubs which))
      else refused (reply_error 500 (fail "streaming unsupported"))
]
  where
    subscribed : Option Hub → Option Hub
    subscribed none = none
    subscribed (some h) = some (subscribe h)
