-- ===== src/Panel/State/Flight/Alone.antt =====
-- A request for the state that meets no other: the steps of the single-flight refresh that it
-- takes.
use flint2_xray_web_console.Base.{
  ◌≤◌, ◌<◌, ◌⊎◌, Option, sym, ◌≡◌, none, some, [], ◌∷◌, refl, inl, inr, Option-cases, ap, ◌∙◌, ℕ,
  ◌+◌, arith,
}
use flint2_xray_web_console.Os.{Env, tick}
use flint2_xray_web_console.Panel.Types.{Server, StateResponse, reply, state_body, StateEntry}
use flint2_xray_web_console.Panel.State.{cached, collect_state, handle_state}
use flint2_xray_web_console.Panel.State.Flight.{
  Flight, is_among, leave, enter, publish, enters, publishes, FlightReach, here, next,
}
use flint2_xray_web_console.Panel.State.Flight.Orderly.{enter-cached, enter-refreshes, self, left}

-- The steps lead from `f` to `g`, send one answer, leave this entry in the cache and nobody
-- refreshing.
pub record Keeps (f g : Flight) (p : StateResponse) (o : Option StateEntry) : Type 0 where
  pub reach : FlightReach f g
  pub sent : g.sent ≡ p ∷ f.sent
  pub entry : g.entry ≡ o
  pub pending : g.pending ≡ none
  pub refreshing : g.refreshing ≡ []

-- no entry, or one of 3 seconds ago or more
abbrev pub IsOld : ℕ → Option StateEntry → Type 0
IsOld now none = Unit
IsOld now (some e) = e.at + 3000 ≤ now

cached_young :
    (now : ℕ) (o : Option StateEntry) (p : StateResponse)
    → cached now o ≡ some p
    → (e : StateEntry) × (o ≡ some e) × (now < e.at + 3000) × (e.payload ≡ p)
unfolding cached
cached_young now none p h = absurd (ground arith)
cached_young now (some e) p h = (e, refl, ground arith, ground arith)

cached-IsOld : (now : ℕ) (o : Option StateEntry) → cached now o ≡ none → IsOld now o
unfolding cached
cached-IsOld now none h = tt
cached-IsOld now (some e) h = ground arith

module _ (env : Env) where
  from_cache :
      (s : Server) (p : StateResponse)
      → cached (env.clock s.world.calls) s.state_entry ≡ some p
      → handle_state env s ≡ (reply 200 (state_body p), record s { world = tick s.world })
  unfolding handle_state
  from_cache s p e = rw (handle_state, e) refl

  collected :
      (s : Server)
      → cached (env.clock s.world.calls) s.state_entry ≡ none
      → let (p, s') = collect_state env (record s { world = tick s.world }) in
        handle_state env s ≡ (
          reply 200 (state_body p),
          record s' {
            state_entry = some (record { payload = p; at = env.clock s'.world.calls });
            world = tick s'.world;
          },
        )
  unfolding handle_state
  collected s e = rw (handle_state, e) refl

  -- Where no refresh is under way, with the clock at `now`: if the cached answer is less than 3
  -- seconds old, handleState answers with it and changes nothing of the server but the time, as a
  -- request that enters the single-flight refresh then does. If there is none, or it is older, it
  -- answers with what collectState gives at this point and keeps that under the time after it, as a
  -- request does that enters at `now` and publishes this answer at that time. Either way no refresh
  -- is under way afterwards.
  pub handle_state_refines :
      (s : Server) (f : Flight)
      → f.entry ≡ s.state_entry
      → f.pending ≡ none
      → f.refreshing ≡ []
      → let now = env.clock s.world.calls in
        let (p, s1) = collect_state env (record s { world = tick s.world }) in
        let done = env.clock s1.world.calls in
        ((e : StateEntry) × (s.state_entry ≡ some e)
          × (now < e.at + 3000)
          × (handle_state env s
              ≡ (reply 200 (state_body e.payload), record s { world = tick s.world }))
          × Keeps f (enter now f) e.payload s.state_entry)
        ⊎ (IsOld now s.state_entry
            × (handle_state env s ≡ (
              reply 200 (state_body p),
              record s1 {
                state_entry = some (record { payload = p; at = done });
                world = tick s1.world;
              },
            ))
            × Keeps f
                (publish f.fresh_slot p done (enter now f))
                p
                (some (record { payload = p; at = done })))
  handle_state_refines s f same idle quiet =
      let now = env.clock s.world.calls in
      elim (Option-cases (cached now s.state_entry)) [
        | inr (p, e) ↦
            let (entry, there, young, payload) = cached_young now s.state_entry p e in
            let hit : cached now f.entry ≡ some entry.payload =
              ap (cached now) same ∙ (e ∙ ap some (sym payload)) in
            let q : cached now s.state_entry ≡ some entry.payload = e ∙ ap some (sym payload) in
            inl (
              entry,
              there,
              young,
              from_cache s entry.payload q,
              record {
                reach = next here (enters now);
                sent = ap (λ g. g.sent) (enter-cached now f entry.payload hit);
                entry = ap (λ g. g.entry) (enter-cached now f entry.payload hit) ∙ same;
                pending = ap (λ g. g.pending) (enter-cached now f entry.payload hit) ∙ idle;
                refreshing = ap (λ g. g.refreshing) (enter-cached now f entry.payload hit) ∙ quiet;
              },
            )
        | inl e ↦
            let miss : cached now f.entry ≡ none = ap (cached now) same ∙ e in
            let began = enter-refreshes now f miss idle in
            let p = (collect_state env (record s { world = tick s.world })).0 in
            let s' = (collect_state env (record s { world = tick s.world })).1 in
            let own : (enter now f).refreshing ≡ f.fresh_slot ∷ [] =
              ap (λ g. g.refreshing) began ∙ ap (λ l. f.fresh_slot ∷ l) quiet in
            inr (
              cached-IsOld now s.state_entry e,
              collected s e,
              record {
                reach = next (next here (enters now)) (
                    publishes f.fresh_slot p (env.clock s'.world.calls)
                      (ap (is_among f.fresh_slot) own ∙ self f.fresh_slot));
                sent = unfold publish in ap (λ g. p ∷ g.sent) began;
                entry = unfold publish in refl;
                pending = unfold publish in refl;
                refreshing =
                    unfold publish in
                    ap (leave f.fresh_slot) own ∙ left f.fresh_slot f.fresh_slot refl;
              },
            )
      ]
