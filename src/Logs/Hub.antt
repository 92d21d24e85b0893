-- ===== src/Logs/Hub.antt =====
-- internal/logs/hub.go: the subscribers of one log file and the goroutines that serve them.
pub mod Listeners
pub mod Runs
pub mod Delivery
use flint2_xray_web_console.Base.{
  ℕ, ◌+◌, Bool, true, false, Option, none, some, List, [], ◌∷◌, ◌++◌, map, Text, if◌then◌else◌, ltb,
  ◌==◌, ◌||◌, length, is_nil,
}
use flint2_xray_web_console.Base.Int.{ℤ, pos, negsuc}

-- A subscriber: its address, and the lines in its channel.
pub record Subscriber : Type 0 where
  pub id : ℕ
  pub ch : List Text

-- The fields of `Hub`, where the cancel function is named by the context that it cancels; then the
-- goroutines: the contexts whose `fanOut` has not returned, those that are cancelled, and a bound
-- on the addresses and contexts in use.
pub record Hub : Type 0 where
  pub path : Text
  pub buf_lines : ℤ
  pub subs : List Subscriber
  pub cancel : Option ℕ
  pub fans : List ℕ
  pub done : List ℕ
  pub fresh : ℕ

unfoldable pub new_hub : Text → Hub
new_hub path = record {
  path = path;
  buf_lines = pos 0;
  subs = [];
  cancel = none;
  fans = [];
  done = [];
  fresh = 0;
}

-- the capacity of a channel
unfoldable pub buf_n : ℤ → ℕ
buf_n (pos n) = if n == 0 then 128 else n
buf_n (negsuc n) = 128

unfoldable pub start_locked : Hub → Hub
start_locked h = record h { cancel = some h.fresh; fans = h.fresh ∷ h.fans; fresh = h.fresh + 1 }

-- `Subscribe`: the new subscriber's address is the hub's `fresh` before it.
unfoldable pub subscribe : Hub → Hub
unfolding start_locked
subscribe h =
    let h' = record h { subs = record { id = h.fresh; ch = [] } ∷ h.subs; fresh = h.fresh + 1 } in
    if length h'.subs == 1 then start_locked h' else h'

unfoldable pub drop_sub : ℕ → List Subscriber → List Subscriber
drop_sub id [] = []
drop_sub id (s ∷ l) = let rest = drop_sub id l in if s.id == id then rest else s ∷ rest

-- the streamer is stopped when nobody listens
unfoldable pub stop_idle : Hub → Hub
stop_idle h =
    if is_nil h.subs
    then elim h.cancel [ none ↦ h | some g ↦ record h { cancel = none; done = g ∷ h.done } ]
    else h

-- the function that `Subscribe` returns
unfoldable pub unsubscribe : ℕ → Hub → Hub
unfolding drop_sub stop_idle
unsubscribe id h = stop_idle (record h { subs = drop_sub id h.subs })

-- the send that drops the line when the channel is full
unfoldable pub offer : ℕ → Text → Subscriber → Subscriber
offer cap line s = if ltb (length s.ch) cap then record s { ch = s.ch ++ (line ∷ []) } else s

-- what `fanOut` does with a line
unfoldable pub deliver : Text → Hub → Hub
unfolding offer buf_n
deliver line h = record h { subs = map (offer (buf_n h.buf_lines) line) h.subs }

unfoldable pub subscriber_count : Hub → ℕ
subscriber_count h = length h.subs

-- the consumer takes a line from its channel
unfoldable pub take_line : ℕ → Subscriber → Subscriber
take_line id s = if s.id == id then elim s.ch [ [] ↦ s | line ∷ ch ↦ record s { ch = ch } ] else s

unfoldable pub receive : ℕ → Hub → Hub
unfolding take_line
receive id h = record h { subs = map (take_line id) h.subs }

unfoldable pub has : ℕ → List ℕ → Bool
has g [] = false
has g (f ∷ l) = f == g || has g l

unfoldable pub without : ℕ → List ℕ → List ℕ
without g [] = []
without g (f ∷ l) = let rest = without g l in if f == g then rest else f ∷ rest

-- `fanOut` returns
unfoldable pub fan_exit : ℕ → Hub → Hub
unfolding without
fan_exit g h = record h { fans = without g h.fans }

-- the lines in a subscriber's channel
unfoldable pub channel : ℕ → List Subscriber → Option (List Text)
channel id [] = none
channel id (s ∷ l) = if s.id == id then some s.ch else channel id l
