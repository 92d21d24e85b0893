-- ===== src/Tests/State.antt =====
-- The theorems on the single-flight refresh of the state at concrete inputs.
use flint2_xray_web_console.Base.{◌<◌, ◌+◌, ◌⊎◌, ◌≡◌, ℕ, true, some, [], ◌∷◌, refl, arith, ◌⊎◌}
use flint2_xray_web_console.Base.Errors.{fail}
use flint2_xray_web_console.Panel.Types.{StateEntry, StateResponse, reply, state_body}
use flint2_xray_web_console.Panel.State.{collect_state, failed_state, handle_state}
use flint2_xray_web_console.Panel.State.Flight.{
  Flight, new_flight, FlightReach, FlightStep, here, next, enters, enter, publish, invalidate,
  is_among, payload_of,
}
use flint2_xray_web_console.Panel.State.Flight.Orderly.{
  IsOrderly, Reach-IsOrderly, new_flight-IsOrderly, waiter_served, stale_kept,
}
use flint2_xray_web_console.Panel.State.Flight.Alone.{Keeps, IsOld, handle_state_refines}
use flint2_xray_web_console.Tests.Samples.{env, server}
use flint2_xray_web_console.Os.{tick}

-- one request refreshes and another waits
abbrev met : Flight
met = enter 6 (enter 5 new_flight)

met-Reach : FlightReach new_flight met
met-Reach = next (next here (enters 5)) (enters 6)

Reach-IsOrderly_example : IsOrderly met
Reach-IsOrderly_example = Reach-IsOrderly new_flight-IsOrderly met-Reach

met_waits : is_among 0 met.waiting ≡ true
unfolding is_among enter
met_waits = refl

met_refreshes : is_among 0 met.refreshing ≡ true
unfolding is_among enter
met_refreshes = refl

waiter_served_example :
    ((p : StateResponse) × (payload_of 0 met.closed ≡ some p))
    ⊎ ((met.refreshing ≡ 0 ∷ [])
        × ((p : StateResponse) (now : ℕ) → FlightStep met (publish 0 p now met))
        × ((p : StateResponse) (now : ℕ) → payload_of 0 (publish 0 p now met).closed ≡ some p))
waiter_served_example = waiter_served 0 met-Reach met_waits

abbrev stale : StateResponse
stale = failed_state server (fail "read")

stale_kept_example :
    FlightReach met (publish 0 stale 10 (invalidate met))
    × ((enter 20 (publish 0 stale 10 (invalidate met))).sent ≡ stale ∷ stale ∷ met.sent)
stale_kept_example = stale_kept met 0 stale 10 20 met_refreshes (omega arith)

handle_state_refines_example :
    let now = env.clock server.world.calls in
    let (p, s1) = collect_state env (record server { world = tick server.world }) in
    let done = env.clock s1.world.calls in
    ((e : StateEntry) × (server.state_entry ≡ some e)
      × (now < e.at + 3000)
      × (handle_state env server
          ≡ (reply 200 (state_body e.payload), record server { world = tick server.world }))
      × Keeps new_flight (enter now new_flight) e.payload server.state_entry)
    ⊎ (IsOld now server.state_entry
        × (handle_state env server ≡ (
          reply 200 (state_body p),
          record s1 {
            state_entry = some (record { payload = p; at = done });
            world = tick s1.world;
          },
        ))
        × Keeps new_flight
            (publish 0 p done (enter now new_flight))
            p
            (some (record { payload = p; at = done })))
handle_state_refines_example = handle_state_refines env server new_flight refl refl refl
