-- ===== src/Panel/Activity/Rows.antt =====
-- Which users GET /api/activity lists.
use flint2_xray_web_console.Base.{
  ◌≡◌, ◌+◌, Bool, false, Option, none, some, List, [], ◌∷◌, Text, text_eq, if◌then◌else◌, length,
  refl, arith, All, Option-cases, ap, inl, ◌∙◌, Bool-cases, inr, ◌||◌,
}
use flint2_xray_web_console.Base.Int.{ℤ}
use flint2_xray_web_console.Activity.{
  Tracker, Sighting, observe, first_entry, ActivityEntry, is_positive, next_entry, is_recent,
}
use flint2_xray_web_console.Json.Map.{Map, lookup, lookup-insert}
use flint2_xray_web_console.Os.{Env, World, tick}
use flint2_xray_web_console.Xray.Stats.{UserStats}
use flint2_xray_web_console.Panel.Types.{ActivityUserRow}
use flint2_xray_web_console.Panel.Activity.{list_rows, sighting, row_of, add_row}

-- No two users have one email.
abbrev pub HasDistinctEmails : List UserStats → Type 0
HasDistinctEmails [] = Unit
HasDistinctEmails (u ∷ us) =
    All (λ (v : UserStats). text_eq u.email v.email ≡ false) us × HasDistinctEmails us

-- the trackers agree on the user
abbrev Agree : Tracker → Tracker → Text → Type 0
Agree t t' email = lookup email t ≡ lookup email t'

-- what `observe` answers, by the entry of the user
abbrev answer : Sighting → Option ActivityEntry → Bool
answer o none = is_positive o.total || o.online
answer o (some e) = o.online || is_recent o.at (next_entry o e).last_active

observe_answers : (o : Sighting) (t : Tracker) → (observe o t).0 ≡ answer o (lookup o.email t)
unfolding observe
observe_answers o t = elim (Option-cases (lookup o.email t)) [
  | inl none_yet ↦ rw (observe, none_yet) refl
  | inr (e, found) ↦ rw (observe, found) refl
]

observe_agrees :
    (o : Sighting) (t t' : Tracker) → Agree t t' o.email → (observe o t).0 ≡ (observe o t').0
observe_agrees o t t' e = rw (observe_answers o t, observe_answers o t') (ap (answer o) e)

-- what `observe` leaves for the other users
observe_apart :
    (o : Sighting) (t : Tracker) (email : Text)
    → text_eq o.email email ≡ false
    → lookup email (observe o t).1 ≡ lookup email t
unfolding observe
observe_apart o t email h = elim (Option-cases (lookup o.email t)) [
  | inl none_yet ↦ rw (observe, none_yet, lookup-insert o.email email (first_entry o) t, h) refl
  | inr (e, found) ↦ rw (observe, found, lookup-insert o.email email (next_entry o e) t, h) refl
]

observe_keeps :
    (o : Sighting) (t t' : Tracker) (us : List UserStats)
    → All (λ (v : UserStats). text_eq o.email v.email ≡ false) us
    → All (λ (v : UserStats). Agree t t' v.email) us
    → All (λ (v : UserStats). Agree (observe o t).1 t' v.email) us
observe_keeps o t t' [] d a = tt
observe_keeps o t t' (v ∷ us) d a =
    (observe_apart o t v.email d.0 ∙ a.0, observe_keeps o t t' us d.1 a.1)

agrees : (us : List UserStats) (t : Tracker) → All (λ (v : UserStats). Agree t t v.email) us
agrees [] t = tt
agrees (u ∷ us) t = (refl, agrees us t)

module _ (env : Env) (online : Map ℤ) where
  -- the rows of the users that the tracker before the loop shows
  abbrev pub shown_rows : Tracker → List UserStats → World → List ActivityUserRow
  shown_rows t [] w = []
  shown_rows t (u ∷ us) w =
      let rest = shown_rows t us (tick w) in
      if (observe (sighting (env.clock w.calls) online u) t).0 then row_of online u ∷ rest else rest

  rows_from :
      (us : List UserStats) (t t' : Tracker) (w : World)
      → HasDistinctEmails us
      → All (λ (v : UserStats). Agree t t' v.email) us
      → (list_rows env online us t w).rows ≡ shown_rows t' us w
  unfolding list_rows add_row
  rows_from [] t t' w d a = refl
  rows_from (u ∷ us) t t' w d a =
      let o = sighting (env.clock w.calls) online u in
      let rest =
        rows_from us (observe o t).1 t' (tick w) d.1
          (observe_keeps o t t' us (unfold sighting in d.0) a.1) in
      let same = observe_agrees o t t' (unfold sighting in a.0) in
      ground (arith, Bool-cases (observe o t).0)

  rows_count :
      (us : List UserStats) (t : Tracker) (w : World)
      → let l = list_rows env online us t w in length l.rows + l.hidden ≡ length us
  unfolding list_rows add_row
  rows_count [] t w = refl
  rows_count (u ∷ us) t w =
      let rest = rows_count us (observe (sighting (env.clock w.calls) online u) t).1 (tick w) in
      ground (arith, Bool-cases (observe (sighting (env.clock w.calls) online u) t).0)

  -- Where no two users have one email: the users listed are those that the tracker before the
  -- request shows, each with the row made of their counters and sessions: what the loop observes of
  -- one user does not change what it answers for another. Every user is either listed or counted as
  -- hidden.
  pub list_rows_lem :
      (us : List UserStats) (t : Tracker) (w : World)
      → HasDistinctEmails us
      → let l = list_rows env online us t w in
        (l.rows ≡ shown_rows t us w) × (length l.rows + l.hidden ≡ length us)
  list_rows_lem us t w d = (rows_from us t t w d (agrees us t), rows_count us t w)
