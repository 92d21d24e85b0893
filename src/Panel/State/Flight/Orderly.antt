-- ===== src/Panel/State/Flight/Orderly.antt =====
-- What stays true of the single-flight refresh in every interleaving of the requests for the state.
use flint2_xray_web_console.Base.{
  ◌≡◌, ℕ, ◌+◌, ◌==◌, true, Option, none, some, List, [], ◌∷◌, arith, ◌⊎◌, inl, inr, Bool-cases,
  Option-cases, ap, sym, ◌∙◌, refl, ◌<◌,
}
use flint2_xray_web_console.Panel.Types.{StateResponse}
use flint2_xray_web_console.Panel.State.{cached}
use flint2_xray_web_console.Panel.State.Flight.{
  Flight, new_flight, is_among, leave, payload_of, enter, publish, wake, invalidate, FlightStep,
  enters, publishes, wakes, invalidates, FlightReach, here, next,
}

-- the slots of the requests that refresh, from the pending one
abbrev pub slots : Option ℕ → List ℕ
slots none = []
slots (some k) = k ∷ []

-- A waiter's slot is the pending one, or it is closed.
abbrev pub IsServed : Flight → ℕ → Type 0
IsServed f k = (f.pending ≡ some k) ⊎ ((p : StateResponse) × (payload_of k f.closed ≡ some p))

-- One request refreshes exactly while a slot is pending, and it has this slot; whoever waits, waits
-- for it or for a slot that is closed, with its payload there.
pub record IsOrderly (f : Flight) : Type 0 where
  pub single : f.refreshing ≡ slots f.pending
  pub served : (k : ℕ) → is_among k f.waiting ≡ true → IsServed f k

leave-is_among : (k j : ℕ) (l : List ℕ) → is_among k (leave j l) ≡ true → is_among k l ≡ true
unfolding leave is_among
leave-is_among k j [] h = h
leave-is_among k j (i ∷ l) h = let rest = leave-is_among k j l in ground arith

pub enter-cached :
    (now : ℕ) (f : Flight) (p : StateResponse)
    → cached now f.entry ≡ some p
    → enter now f ≡ record f { sent = p ∷ f.sent }
unfolding enter
enter-cached now f p e = ground arith

enter-waits :
    (now : ℕ) (f : Flight) (k : ℕ)
    → cached now f.entry ≡ none
    → f.pending ≡ some k
    → enter now f ≡ record f { waiting = k ∷ f.waiting }
unfolding enter
enter-waits now f k e q = ground arith

pub enter-refreshes :
    (now : ℕ) (f : Flight)
    → cached now f.entry ≡ none
    → f.pending ≡ none
    → enter now f ≡ record f {
      pending = some f.fresh_slot;
      refreshing = f.fresh_slot ∷ f.refreshing;
      fresh_slot = f.fresh_slot + 1;
    }
unfolding enter
enter-refreshes now f e q = ground arith

enter-IsOrderly : (now : ℕ) (f : Flight) → IsOrderly f → IsOrderly (enter now f)
enter-IsOrderly now f v = elim (Option-cases (cached now f.entry)) [
  | inr (p, e) ↦ rw (enter-cached now f p e) (record { single = v.single; served = v.served })
  | inl e ↦ elim (Option-cases f.pending) [
    | inr (k, q) ↦ rw (enter-waits now f k e q) (record {
      single = v.single;
      served = λ j h.
          unfold is_among in
          elim (Bool-cases (j == k)) [
            | inl same ↦ inl (let eq : j ≡ k = ground arith in rw eq q)
            | inr other ↦ v.served j (ground arith)
          ];
    })
    | inl q ↦ rw (enter-refreshes now f e q) (record {
      single = let none_on = v.single in ground arith;
      served = λ j h. elim (v.served j h) [ inl on ↦ absurd (ground arith) | inr done ↦ inr done ];
    })
  ]
]

pub self : (k : ℕ) → is_among k (k ∷ []) ≡ true
unfolding is_among
self k = ground arith

first :
    (k : ℕ) (p : StateResponse) (l : List (ℕ × StateResponse)) → payload_of k ((k, p) ∷ l) ≡ some p
unfolding payload_of
first k p l = ground arith

just : {k j : ℕ} → some k ≡ some j → k ≡ j
just e = cc

sole : (k j : ℕ) → is_among k (j ∷ []) ≡ true → k ≡ j
unfolding is_among
sole k j h = ground arith

pub left : (k j : ℕ) → k ≡ j → leave k (j ∷ []) ≡ []
unfolding leave
left k j e = ground arith

-- a slot that is closed stays closed, one that is being closed is
closes :
    (k i : ℕ) (p : StateResponse) (l : List (ℕ × StateResponse))
    → (k ≡ i) ⊎ ((q : StateResponse) × (payload_of i l ≡ some q))
    → (q : StateResponse) × (payload_of i ((k, p) ∷ l) ≡ some q)
unfolding payload_of
closes k i p l (inl e) = (p, ground arith)
closes k i p l (inr (q, e)) = elim (Bool-cases (i == k)) [
  | inl same ↦ (p, ground arith)
  | inr other ↦ (q, ground arith)
]

publish-IsOrderly :
    (k : ℕ) (p : StateResponse) (now : ℕ) (f : Flight)
    → is_among k f.refreshing ≡ true
    → IsOrderly f
    → IsOrderly (publish k p now f)
publish-IsOrderly k p now f h v = elim (Option-cases f.pending) [
  | inl q ↦
      let none_on : f.refreshing ≡ [] = v.single ∙ ap slots q in
      absurd (unfold is_among in ground (arith, none_on))
  | inr (j, q) ↦
      let one_on : f.refreshing ≡ j ∷ [] = v.single ∙ ap slots q in
      let own : k ≡ j = sole k j (ap (is_among k) (sym one_on) ∙ h) in
      unfold publish in
      record {
        single = ap (leave k) one_on ∙ left k j own;
        served = λ i w. elim (v.served i w) [
          | inl on ↦ inr (closes k i p f.closed (inl (own ∙ just (sym q ∙ on))))
          | inr done ↦ inr (closes k i p f.closed (inr done))
        ];
      }
]

Step-IsOrderly : {f g : Flight} → FlightStep f g → IsOrderly f → IsOrderly g
Step-IsOrderly {f} (enters now) v = enter-IsOrderly now f v
Step-IsOrderly {f} (publishes k p now h) v = publish-IsOrderly k p now f h v
Step-IsOrderly {f} (wakes k p h c) v =
    unfold wake in
    record { single = v.single; served = λ j w. v.served j (leave-is_among j k f.waiting w) }
Step-IsOrderly {f} invalidates v =
    unfold invalidate in record { single = v.single; served = v.served }

pub new_flight-IsOrderly : IsOrderly new_flight
new_flight-IsOrderly = record { single = refl; served = λ k h. unfold is_among in ground arith }

-- In every interleaving of requests, refreshes that end, waiters that wake and invalidations, from
-- a cache where it holds: one request refreshes exactly while a slot is pending, and has that slot,
-- and whoever waits, waits for it or for a slot that is closed with a payload in it.
pub Reach-IsOrderly : {f g : Flight} → IsOrderly f → FlightReach f g → IsOrderly g
Reach-IsOrderly v here = v
Reach-IsOrderly v (next r st) = Step-IsOrderly st (Reach-IsOrderly v r)

-- Whatever happened since the cache was empty, a request that waits is not stranded: its slot is
-- closed, so that it can answer with the payload there, or exactly one request refreshes, has this
-- slot, and whatever it collects is what the waiter will find.
pub waiter_served :
    {f : Flight} (k : ℕ)
    → FlightReach new_flight f
    → is_among k f.waiting ≡ true
    → ((p : StateResponse) × (payload_of k f.closed ≡ some p))
      ⊎ ((f.refreshing ≡ k ∷ [])
          × ((p : StateResponse) (now : ℕ) → FlightStep f (publish k p now f))
          × ((p : StateResponse) (now : ℕ) → payload_of k (publish k p now f).closed ≡ some p))
waiter_served {f} k r h =
    let v = Reach-IsOrderly new_flight-IsOrderly r in
    elim (v.served k h) [
      | inr done ↦ inl done
      | inl q ↦
          let own : f.refreshing ≡ k ∷ [] = v.single ∙ ap slots q in
          inr (
            own,
            λ p now. publishes k p now (ap (is_among k) own ∙ self k),
            λ p now. unfold publish in unfold payload_of in first k p f.closed,
          )
    ]

-- An invalidation does not reach a refresh that is under way: whatever it collected, before the
-- invalidation or after, it publishes, and a request in the three seconds after that is answered
-- with it.
pub stale_kept :
    (f : Flight) (k : ℕ) (p : StateResponse) (now later : ℕ)
    → is_among k f.refreshing ≡ true
    → later < now + 3000
    → FlightReach f (publish k p now (invalidate f))
      × ((enter later (publish k p now (invalidate f))).sent ≡ p ∷ p ∷ f.sent)
stale_kept f k p now later h soon =
    let g = publish k p now (invalidate f) in
    let hit : cached later g.entry ≡ some p = unfold publish in unfold cached in ground arith in
    (
      next (next here invalidates) (publishes k p now (unfold invalidate in h)),
      ap (λ g. g.sent) (enter-cached later g p hit) ∙ (unfold publish in unfold invalidate in refl),
    )
