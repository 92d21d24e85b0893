-- ===== src/Panel/State/Flight.antt =====
-- `handleState` of internal/http/state.go for requests that interleave: the single-flight refresh,
-- as a step relation over its critical sections. A slot is a number; what a refresh collects is any
-- answer.
pub mod Orderly
pub mod Alone
use flint2_xray_web_console.Base.{
  ◌≡◌, ℕ, ◌+◌, ◌==◌, Bool, true, false, Option, none, some, List, [], ◌∷◌, if◌then◌else◌, arith,
  ◌⊎◌, inl, inr, Bool-cases, Option-cases, ap, sym, ◌∙◌,
}
use flint2_xray_web_console.Panel.Types.{StateResponse, StateEntry}
use flint2_xray_web_console.Panel.State.{cached}

-- The cache, the slots that are closed with their payloads, and the requests: those that wait,
-- by slot, those that refresh, by slot, and the answers sent.
pub record Flight : Type 0 where
  pub entry : Option StateEntry
  pub pending : Option ℕ
  pub closed : List (ℕ × StateResponse)
  pub waiting : List ℕ
  pub refreshing : List ℕ
  pub sent : List StateResponse
  pub fresh_slot : ℕ

abbrev pub new_flight : Flight
new_flight = record {
  entry = none;
  pending = none;
  closed = [];
  waiting = [];
  refreshing = [];
  sent = [];
  fresh_slot = 0;
}

unfoldable pub is_among : ℕ → List ℕ → Bool
is_among k [] = false
is_among k (j ∷ l) = let rest = is_among k l in if k == j then true else rest

-- without the first one
unfoldable pub leave : ℕ → List ℕ → List ℕ
leave k [] = []
leave k (j ∷ l) = let rest = leave k l in if k == j then l else j ∷ rest

-- the payload of a slot that is closed
unfoldable pub payload_of : ℕ → List (ℕ × StateResponse) → Option StateResponse
payload_of k [] = none
payload_of k ((j, p) ∷ l) = let rest = payload_of k l in if k == j then some p else rest

-- the first critical section, and the answer from the cache
unfoldable pub enter : ℕ → Flight → Flight
unfolding cached
enter now f = elim (cached now f.entry) [
  | some p ↦ record f { sent = p ∷ f.sent }
  | none ↦ elim f.pending [
    | some k ↦ record f { waiting = k ∷ f.waiting }
    | none ↦ record f {
      pending = some f.fresh_slot;
      refreshing = f.fresh_slot ∷ f.refreshing;
      fresh_slot = f.fresh_slot + 1;
    }
  ]
]

-- the second critical section of the refresher, the close of its slot and its answer
unfoldable pub publish : ℕ → StateResponse → ℕ → Flight → Flight
unfolding leave
publish k p now f = record f {
  entry = some (record { payload = p; at = now });
  pending = none;
  closed = (k, p) ∷ f.closed;
  refreshing = leave k f.refreshing;
  sent = p ∷ f.sent;
}

-- a waiter finds its slot closed, and answers
unfoldable pub wake : ℕ → StateResponse → Flight → Flight
unfolding leave
wake k p f = record f { waiting = leave k f.waiting; sent = p ∷ f.sent }

-- `invalidateState`, between any two sections
unfoldable pub invalidate : Flight → Flight
invalidate f = record f { entry = none }

pub data FlightStep (f : Flight) : Flight → Type 0 where
  enters : (now : ℕ) → FlightStep f (enter now f)
  publishes :
      (k : ℕ) (p : StateResponse) (now : ℕ)
      → is_among k f.refreshing ≡ true
      → FlightStep f (publish k p now f)
  wakes :
      (k : ℕ) (p : StateResponse)
      → is_among k f.waiting ≡ true
      → payload_of k f.closed ≡ some p
      → FlightStep f (wake k p f)
  invalidates : FlightStep f (invalidate f)

pub data FlightReach (f : Flight) : Flight → Type 0 where
  here : FlightReach f f
  next : {g h : Flight} → FlightReach f g → FlightStep g h → FlightReach f h
