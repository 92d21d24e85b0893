-- ===== src/Logs/Hub/Runs.antt =====
-- The interleavings of a hub's callers and goroutines, and what stays true of it in all of them.
use flint2_xray_web_console.Base.{
  ◌≡◌, ℕ, ◌+◌, ◌<◌, true, false, some, none, List, [], ◌∷◌, Text, All, is_nil, arith, refl, map,
  Bool-cases, inl, inr, Option-cases,
}
use flint2_xray_web_console.Logs.Hub.{
  Hub, Subscriber, subscribe, unsubscribe, deliver, receive, fan_exit, has, buf_n, start_locked,
  drop_sub, stop_idle, offer, take_line, new_hub,
}
use flint2_xray_web_console.Logs.Hub.Listeners.{
  IsRoomy, IsDistinct, offer-All, take_line-All, drop_sub-All, map-IsDistinct, drop_sub-IsDistinct,
  is_nil-map, nil_length, drop_sub_nil, has-without, offer-id, take_line-id,
}

-- One step. A `fanOut` that has not returned may take a line from its streamer, whether its context
-- is cancelled or not, since `select` chooses; it returns only once the context is cancelled, as
-- does `Follow`, which then closes the channel between them.
pub data Step (h : Hub) : Hub → Type 0 where
  subscribes : Step h (subscribe h)
  unsubscribes : (id : ℕ) → Step h (unsubscribe id h)
  fans_out : (g : ℕ) (line : Text) → has g h.fans ≡ true → Step h (deliver line h)
  fan_exits : (g : ℕ) → has g h.fans ≡ true → has g h.done ≡ true → Step h (fan_exit g h)
  receives : (id : ℕ) → Step h (receive id h)

pub data Reach (h : Hub) : Hub → Type 0 where
  here : Reach h h
  next : {k l : Hub} → Reach h k → Step k l → Reach h l

-- No channel holds more than its capacity; no two subscribers have one address; there is a
-- context to cancel exactly while there are subscribers, its `fanOut` is alive, and every other
-- `fanOut` that is alive has been cancelled.
pub record IsValid (h : Hub) : Type 0 where
  pub roomy : All (IsRoomy (buf_n h.buf_lines)) h.subs
  pub distinct : IsDistinct h.fresh h.subs
  pub idle : is_nil h.subs ≡ true → h.cancel ≡ none
  pub streaming :
      is_nil h.subs ≡ false
      → (g : ℕ) × (h.cancel ≡ some g) × (has g h.fans ≡ true) × (has g h.done ≡ false)
  pub single : (g : ℕ) → has g h.fans ≡ true → has g h.done ≡ false → h.cancel ≡ some g
  pub used : (g : ℕ) → has g h.fans ≡ true → g < h.fresh
  pub cancelled : (g : ℕ) → has g h.done ≡ true → g < h.fresh

-- the hub with one more subscriber
abbrev joined : Hub → Hub
joined h = record h { subs = record { id = h.fresh; ch = [] } ∷ h.subs; fresh = h.fresh + 1 }

length_one : (h : Hub) → is_nil h.subs ≡ true → subscribe h ≡ start_locked (joined h)
unfolding subscribe
length_one h e = ground (arith, nil_length h.subs)

length_more : (h : Hub) → is_nil h.subs ≡ false → subscribe h ≡ joined h
unfolding subscribe
length_more h e = ground (arith, nil_length h.subs)

first-IsValid : (h : Hub) → is_nil h.subs ≡ true → IsValid h → IsValid (start_locked (joined h))
unfolding start_locked has
first-IsValid h e v = record {
  roomy = (omega arith, v.roomy);
  distinct = (omega arith, v.distinct);
  idle = λ k. ground arith;
  streaming = λ k. (
    h.fresh + 1,
    refl,
    ground arith,
    elim (Bool-cases (has (h.fresh + 1) h.done)) [
      | inl t ↦ let old = v.cancelled (h.fresh + 1) t in ground arith
      | inr f ↦ f
    ],
  );
  single = λ g live alive. elim (Bool-cases (has g h.fans)) [
    | inl t ↦ let a = v.single g t alive in let b = v.idle e in ground arith
    | inr f ↦ ground arith
  ];
  used = λ g live. elim (Bool-cases (has g h.fans)) [
    | inl t ↦ let old = v.used g t in ground arith
    | inr f ↦ ground arith
  ];
  cancelled = λ g gone. let old = v.cancelled g gone in omega (arith, old);
}

more-IsValid : (h : Hub) → is_nil h.subs ≡ false → IsValid h → IsValid (joined h)
more-IsValid h e v = record {
  roomy = (omega arith, v.roomy);
  distinct = (omega arith, v.distinct);
  idle = λ k. ground arith;
  streaming = λ k. v.streaming e;
  single = v.single;
  used = λ g live. let old = v.used g live in omega (arith, old);
  cancelled = λ g gone. let old = v.cancelled g gone in omega (arith, old);
}

subscribe-IsValid : (h : Hub) → IsValid h → IsValid (subscribe h)
subscribe-IsValid h v = elim (Bool-cases (is_nil h.subs)) [
  | inl e ↦ rw (length_one h e) (first-IsValid h e v)
  | inr e ↦ rw (length_more h e) (more-IsValid h e v)
]

cancel_used : (h : Hub) (g : ℕ) → h.cancel ≡ some g → IsValid h → g < h.fresh
cancel_used h g c v = elim (Bool-cases (is_nil h.subs)) [
  | inl e ↦ let idle = v.idle e in ground arith
  | inr e ↦ let (f, on, live, alive) = v.streaming e in let bound = v.used f live in ground arith
]

stop_idle-none :
    (h : Hub) → h.cancel ≡ none → stop_idle (record h { subs = [] }) ≡ record h { subs = [] }
unfolding stop_idle
stop_idle-none h c = ground arith

stop_idle-some :
    (h : Hub) (g : ℕ)
    → h.cancel ≡ some g
    → stop_idle (record h { subs = [] }) ≡ record h { subs = []; cancel = none; done = g ∷ h.done }
unfolding stop_idle
stop_idle-some h g c = ground arith

-- the hub with these subscribers, some of which may have left
leave-IsValid :
    (h : Hub) (l : List Subscriber)
    → (is_nil h.subs ≡ true → is_nil l ≡ true)
    → All (IsRoomy (buf_n h.buf_lines)) l
    → IsDistinct h.fresh l
    → IsValid h
    → IsValid (stop_idle (record h { subs = l }))
unfolding stop_idle has
leave-IsValid h (s ∷ l) nil roomy distinct v = record {
  roomy = roomy;
  distinct = distinct;
  idle = λ k. ground arith;
  streaming = λ k.
      v.streaming
        (elim (Bool-cases (is_nil h.subs)) [ inl e ↦ let e' = nil e in ground arith | inr e ↦ e ]);
  single = v.single;
  used = v.used;
  cancelled = v.cancelled;
}
leave-IsValid h [] nil roomy distinct v = elim (Option-cases h.cancel) [
  | inl c ↦ rw (stop_idle-none h c) (record {
    roomy = tt;
    distinct = tt;
    idle = λ k. c;
    streaming = λ k. ground arith;
    single = v.single;
    used = v.used;
    cancelled = v.cancelled;
  })
  | inr (g, c) ↦ rw (stop_idle-some h g c) (record {
    roomy = tt;
    distinct = tt;
    idle = λ k. refl;
    streaming = λ k. ground arith;
    single = λ f live alive. let a = v.single f live (ground arith) in ground arith;
    used = v.used;
    cancelled = λ f gone.
        let bound = cancel_used h g c v in
        elim (Bool-cases (has f h.done)) [ inl t ↦ v.cancelled f t | inr o ↦ ground arith ];
  })
]

unsubscribe-IsValid : (id : ℕ) (h : Hub) → IsValid h → IsValid (unsubscribe id h)
unfolding unsubscribe
unsubscribe-IsValid id h v =
    leave-IsValid h (drop_sub id h.subs) (drop_sub_nil id h.subs)
      (drop_sub-All (buf_n h.buf_lines) id h.subs v.roomy)
      (drop_sub-IsDistinct id h.fresh h.subs v.distinct) v

-- the subscribers change, and neither their number nor their addresses
map_subs-IsValid :
    (f : Subscriber → Subscriber) (h : Hub)
    → ((s : Subscriber) → (f s).id ≡ s.id)
    → All (IsRoomy (buf_n h.buf_lines)) (map f h.subs)
    → IsValid h
    → IsValid (record h { subs = map f h.subs })
map_subs-IsValid f h same roomy v = record {
  roomy = roomy;
  distinct = map-IsDistinct f h.fresh h.subs same v.distinct;
  idle = rw (is_nil-map f h.subs) v.idle;
  streaming = rw (is_nil-map f h.subs) v.streaming;
  single = v.single;
  used = v.used;
  cancelled = v.cancelled;
}

fan_exit-IsValid : (g : ℕ) (h : Hub) → has g h.done ≡ true → IsValid h → IsValid (fan_exit g h)
unfolding fan_exit
fan_exit-IsValid g h d v = record {
  roomy = v.roomy;
  distinct = v.distinct;
  idle = v.idle;
  streaming = λ e.
      let (f, on, live, alive) = v.streaming e in
      (f, on, ground (arith, has-without f g h.fans), alive);
  single = λ f live alive. v.single f (ground (arith, has-without f g h.fans)) alive;
  used = λ f live. v.used f (ground (arith, has-without f g h.fans));
  cancelled = v.cancelled;
}

Step-IsValid : {h k : Hub} → Step h k → IsValid h → IsValid k
Step-IsValid {h} subscribes v = subscribe-IsValid h v
Step-IsValid {h} (unsubscribes id) v = unsubscribe-IsValid id h v
Step-IsValid {h} (fans_out g line live) v =
    unfold deliver in
    map_subs-IsValid (offer (buf_n h.buf_lines) line) h (offer-id (buf_n h.buf_lines) line)
      (offer-All (buf_n h.buf_lines) line h.subs v.roomy) v
Step-IsValid {h} (fan_exits g live gone) v = fan_exit-IsValid g h gone v
Step-IsValid {h} (receives id) v =
    unfold receive in
    map_subs-IsValid (take_line id) h (take_line-id id)
      (take_line-All (buf_n h.buf_lines) id h.subs v.roomy) v

pub new_hub-IsValid : (path : Text) → IsValid (new_hub path)
unfolding new_hub has
new_hub-IsValid path = record {
  roomy = tt;
  distinct = tt;
  idle = λ e. refl;
  streaming = λ e. ground arith;
  single = λ g live alive. ground arith;
  used = λ g live. ground arith;
  cancelled = λ g gone. ground arith;
}

-- In every interleaving of subscriptions, unsubscriptions, deliveries, receptions and exits, from a
-- hub where it holds: no channel holds more lines than its capacity, no two subscribers have one
-- address, there is a context to cancel exactly while somebody listens, its `fanOut` is alive, and
-- any other `fanOut` that is still alive has been cancelled.
pub Reach-IsValid : {h k : Hub} → IsValid h → Reach h k → IsValid k
Reach-IsValid v here = v
Reach-IsValid v (next r st) = Step-IsValid st (Reach-IsValid v r)
