-- ===== src/Logs/Hub/Delivery.antt =====
-- A line of the log reaches the subscribers, and they take it in its turn.
use flint2_xray_web_console.Base.{
  ◌≡◌, ℕ, true, false, some, List, [], ◌∷◌, ◌++◌, Text, length, is_nil, arith, refl, if◌then◌else◌,
  ltb, map, ◌==◌, ◌∙◌, ap,
}
use flint2_xray_web_console.Logs.Hub.{
  Hub, Subscriber, new_hub, deliver, receive, has, buf_n, offer, take_line, channel,
}
use flint2_xray_web_console.Logs.Hub.Runs.{Reach, new_hub-IsValid, Reach-IsValid}

channel-offer :
    (cap id : ℕ) (line : Text) (l : List Subscriber) (q : List Text)
    → channel id l ≡ some q
    → channel id (map (offer cap line) l) ≡ some (if ltb (length q) cap then q ++ line ∷ [] else q)
unfolding channel offer
channel-offer room id line [] q e = ground arith
channel-offer room id line (s ∷ l) q e = ground (arith, channel-offer room id line l q)

channel-take_line :
    (id id' : ℕ) (l : List Subscriber) (line : Text) (q : List Text)
    → channel id l ≡ some (line ∷ q)
    → channel id (map (take_line id') l) ≡ some (if id == id' then q else line ∷ q)
unfolding channel take_line
channel-take_line id id' [] line q e = ground arith
channel-take_line id id' (s ∷ l) line q e = ground (arith, channel-take_line id id' l line q)

channel_is :
    (id : ℕ) (l : List Subscriber) (q : List Text) → channel id l ≡ some q → is_nil l ≡ false
unfolding channel
channel_is id [] q e = ground arith
channel_is id (s ∷ l) q e = refl

-- Whatever happened since the hub was made, while somebody listens the streamer that a cancel would
-- stop is alive and not cancelled, so that its next line can be delivered; the delivery appends the
-- line to the subscriber's channel if that has room and else changes nothing of it, and a reception
-- takes the channel's oldest line and touches no other channel.
pub line_delivered :
    (path : Text) (h : Hub) (id : ℕ) (q : List Text)
    → Reach (new_hub path) h
    → channel id h.subs ≡ some q
    → (g : ℕ) × (h.cancel ≡ some g)
      × (has g h.fans ≡ true)
      × (has g h.done ≡ false)
      × ((line : Text)
          → channel id (deliver line h).subs
            ≡ some (if ltb (length q) (buf_n h.buf_lines) then q ++ line ∷ [] else q))
      × ((id' : ℕ) (line : Text) (rest : List Text)
          → q ≡ line ∷ rest
          → channel id (receive id' h).subs ≡ some (if id == id' then rest else q))
line_delivered path h id q r e =
    let v = Reach-IsValid (new_hub-IsValid path) r in
    let (g, on, live, alive) = v.streaming (channel_is id h.subs q e) in
    (
      g,
      on,
      live,
      alive,
      λ line. unfold deliver in channel-offer (buf_n h.buf_lines) id line h.subs q e,
      λ id' line rest k.
          unfold receive in rw k (channel-take_line id id' h.subs line rest (e ∙ ap some k)),
    )
