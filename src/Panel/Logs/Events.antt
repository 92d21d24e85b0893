-- ===== src/Panel/Logs/Events.antt =====
-- What a browser reads from the live stream of a log.
use flint2_xray_web_console.Base.{
  ◌≡◌, false, Option, none, some, List, [], ◌∷◌, ◌++◌, Text, codes, All, ◌==◌, if◌then◌else◌, refl,
  arith, map, ◌∙◌, ap, append_assoc,
}
use flint2_xray_web_console.Base.Slices.{drop}
use flint2_xray_web_console.Base.Strings.{has_prefix}
use flint2_xray_web_console.Logs.Lines.{raw_lines, newline}
use flint2_xray_web_console.Panel.Logs.Stream.{
  Input, line_in, beat, closed, cancelled, stream_sse, write_sse, remove_cr, ping,
}

-- no byte of it is a newline
abbrev pub IsLine : Text → Type 0
IsLine s = All (λ c. (c == newline) ≡ false) s

abbrev join : Option Text → Text → Text
join none t = t
join (some d) t = d ++ (newline ∷ t)

-- Server-sent events, by their standard: a `data` field adds to the event, an empty line dispatches
-- it, and other lines are ignored.
abbrev pub dispatch : Option Text → List Text → List Text
dispatch event [] = []
dispatch none ([] ∷ ls) = dispatch none ls
dispatch (some d) ([] ∷ ls) = d ∷ dispatch none ls
dispatch event ((c ∷ l) ∷ ls) =
    dispatch
      (if has_prefix (c ∷ l) (codes "data: ") then some (join event (drop 6 (c ∷ l))) else event) ls

-- the events in the bytes of a stream
abbrev pub events : Text → List Text
events s = dispatch none (raw_lines s).0

-- the lines that come before the end
abbrev pub taken : List Input → List Text
taken [] = []
taken (line_in l ∷ is) = l ∷ taken is
taken (beat ∷ is) = taken is
taken (closed ∷ is) = []
taken (cancelled ∷ is) = []

raw_line :
    (p s : Text)
    → IsLine p
    → raw_lines (p ++ (newline ∷ s)) ≡ (p ∷ (raw_lines s).0, (raw_lines s).1)
unfolding raw_lines
raw_line [] s h = refl
raw_line (c ∷ p) s h = rw (h.0, raw_line p s h.1) refl

remove_cr-IsLine : (s : Text) → IsLine s → IsLine (remove_cr s)
unfolding remove_cr
remove_cr-IsLine [] h = tt
remove_cr-IsLine (c ∷ s) h = let rest = remove_cr-IsLine s h.1 in ground arith

text-IsLine : (l : Text) → IsLine l → IsLine (codes "data: " ++ remove_cr l)
text-IsLine l h = (refl, (refl, (refl, (refl, (refl, (refl, remove_cr-IsLine l h))))))

events_sse : (l s : Text) → IsLine l → events (write_sse l ++ s) ≡ remove_cr l ∷ events s
unfolding write_sse drop has_prefix
events_sse l s h =
    let text = codes "data: " ++ remove_cr l in
    let whole : write_sse l ++ s ≡ text ++ (newline ∷ ([] ++ (newline ∷ s))) =
      ap (λ t. codes "data: " ++ t) (append_assoc (remove_cr l) (10 ∷ 10 ∷ []) s) in
    rw (whole, raw_line text ([] ++ (newline ∷ s)) (text-IsLine l h), raw_line [] s tt) refl

events-ping : (s : Text) → events (ping ++ s) ≡ events s
events-ping s = unfold raw_lines in unfold has_prefix in refl

-- If no line has a newline in it, the events that a browser reads from the bytes written are the
-- lines that come in before the channel or the request ends, in their order, without their carriage
-- returns; the heartbeats add no event.
pub stream_events :
    (is : List Input) → All IsLine (taken is) → events (stream_sse is) ≡ map remove_cr (taken is)
unfolding stream_sse
stream_events [] h = unfold raw_lines in refl
stream_events (line_in l ∷ is) h =
    events_sse l (stream_sse is) h.0 ∙ ap (λ es. remove_cr l ∷ es) (stream_events is h.1)
stream_events (beat ∷ is) h = events-ping (stream_sse is) ∙ stream_events is h
stream_events (closed ∷ is) h = unfold raw_lines in refl
stream_events (cancelled ∷ is) h = unfold raw_lines in refl
