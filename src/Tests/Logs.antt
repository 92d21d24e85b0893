-- ===== src/Tests/Logs.antt =====
-- The theorems on the logs at concrete inputs.
use flint2_xray_web_console.Base.{
  ◌≡◌, ℕ, ◌≤◌, ◌⊎◌, true, false, some, List, [], ◌∷◌, ◌++◌, Text, codes, length, refl,
  if◌then◌else◌, ltb, ◌==◌,
}
use flint2_xray_web_console.Logs.Follow.{start, found}
use flint2_xray_web_console.Logs.Follow.Growth.{
  Event, read, unopened, unseen, run, at, follow_reads, appended,
}
use flint2_xray_web_console.Logs.Hub.{
  Hub, new_hub, subscribe, unsubscribe, deliver, receive, has, buf_n, channel,
}
use flint2_xray_web_console.Logs.Hub.Runs.{
  Reach, IsValid, here, next, subscribes, fans_out, unsubscribes, Reach-IsValid, new_hub-IsValid,
}
use flint2_xray_web_console.Logs.Hub.Delivery.{line_delivered}
use flint2_xray_web_console.Panel.Types.{Config, reply, logs_body}
use flint2_xray_web_console.Panel.Logs.{
  LogFile, opened, handle_logs, tail_of, log_path, keep_last, budget,
}
use flint2_xray_web_console.Panel.Logs.Tail.{window_lines, handle_logs_lem}
use flint2_xray_web_console.Panel.Logs.Stream.{line_in, beat, closed, stream_sse, remove_cr}
use flint2_xray_web_console.Panel.Logs.Events.{events, stream_events}
use flint2_xray_web_console.Tests.Samples.{settings}
use flint2_xray_web_console.Logs.Lines.{lines}

abbrev before : Text
before = codes "old" ++ (10 ∷ [])

-- "one", a newline and "tw", and then "o", a carriage return, a newline and "th"
abbrev missed : List Event
missed = unopened (codes "one" ++ (10 ∷ codes "t")) ∷ unseen (codes "w") ∷ []

follow_reads_example :
    run 7 before
      (missed ++ (read (codes "o" ++ (13 ∷ 10 ∷ codes "th")) (codes "ree") ∷ []))
      (start (found 7 4))
    ≡ (
      codes "one" ∷ codes "two" ∷ [],
      at 7 (before ++ (codes "one" ++ (10 ∷ codes "two" ++ (13 ∷ 10 ∷ codes "th")))) (codes "th"),
    )
unfolding lines appended
follow_reads_example =
    follow_reads 7 before (codes "o" ++ (13 ∷ 10 ∷ codes "th")) (codes "ree") missed

abbrev path : Text
path = codes "/var/log/xray.log"

abbrev heard : Hub
heard = deliver (codes "hello") (subscribe (new_hub path))

heard-Reach : Reach (new_hub path) heard
unfolding subscribe new_hub has
heard-Reach = next (next here subscribes) (fans_out 1 (codes "hello") refl)

Reach-IsValid_example : IsValid (unsubscribe 0 heard)
Reach-IsValid_example = Reach-IsValid (new_hub-IsValid path) (next heard-Reach (unsubscribes 0))

heard-channel : channel 0 heard.subs ≡ some (codes "hello" ∷ [])
unfolding channel deliver subscribe new_hub
heard-channel = refl

line_delivered_example :
    (g : ℕ) × (heard.cancel ≡ some g)
    × (has g heard.fans ≡ true)
    × (has g heard.done ≡ false)
    × ((line : Text)
        → channel 0 (deliver line heard).subs
          ≡ some (
              if ltb (length (codes "hello" ∷ [])) (buf_n heard.buf_lines)
              then codes "hello" ∷ line ∷ []
              else codes "hello" ∷ []))
    × ((id' : ℕ) (line : Text) (rest : List Text)
        → codes "hello" ∷ [] ≡ line ∷ rest
        → channel 0 (receive id' heard).subs ≡ some (if 0 == id' then rest else codes "hello" ∷ []))
line_delivered_example = line_delivered path heard 0 (codes "hello" ∷ []) heard-Reach heard-channel

abbrev logged : Config
logged = record settings { log_error = path }

abbrev log_file : Text → LogFile
log_file p = opened (codes "a" ++ (10 ∷ codes "b" ++ (13 ∷ 10 ∷ codes "c"))) false

log_answer :
    handle_logs log_file logged (codes "error") (codes "2")
    ≡ reply 200 (logs_body path (codes "b" ∷ codes "c" ∷ []) false)
unfolding handle_logs
log_answer = refl

handle_logs_lem_example :
    let ls = codes "b" ∷ codes "c" ∷ [] in
    (n : ℕ) × (tail_of (codes "2") ≡ some n)
    × (1 ≤ n)
    × (n ≤ 5000)
    × (length ls ≤ n)
    × (log_path (codes "error") logged ≡ some path)
    × (((log_file path ≡ LogFile.missing) × (ls ≡ []))
        ⊎ ((s : Text) × (log_file path ≡ opened s false)
            × (ls ≡ keep_last n (window_lines s budget))))
handle_logs_lem_example =
    handle_logs_lem log_file logged (codes "error") (codes "2") path (codes "b" ∷ codes "c" ∷ [])
      false log_answer

stream_events_example :
    events (
      stream_sse
        (line_in (codes "hi") ∷ beat ∷ line_in (codes "yo") ∷ closed ∷ line_in (codes "no") ∷ []))
    ≡ codes "hi" ∷ codes "yo" ∷ []
unfolding remove_cr
stream_events_example =
    stream_events
      (line_in (codes "hi") ∷ beat ∷ line_in (codes "yo") ∷ closed ∷ line_in (codes "no") ∷ [])
      ((refl, (refl, tt)), ((refl, (refl, tt)), tt))
