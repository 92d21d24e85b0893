-- ===== src/Activity/History.antt =====
-- The tracker against the history of the calls since its last reset, the last call first.
use flint2_xray_web_console.Base.{
  ℕ, ◌+◌, ◌≤◌, ◌≡◌, refl, Bool, true, false, Option, none, some, List, [], ◌∷◌, Text, text_eq,
  text_eq_iff, if◌then◌else◌, ◌||◌, ◌&&◌, not, leb, arith, Bool-cases, Option-cases, inl, inr,
}
use flint2_xray_web_console.Base.Int.{ℤ}
use flint2_xray_web_console.Json.Map.{lookup, lookup-insert}
use flint2_xray_web_console.Activity.{
  Tracker, ActivityEntry, Sighting, observe, reset, idle_hide, int_eq, is_positive, first_entry,
  next_entry, is_recent,
}

-- the tracker after these calls
unfoldable pub run : List Sighting → Tracker
run [] = reset
run (o ∷ h) = (observe o (run h)).1

-- the byte total of the last call for this user
unfoldable pub latest : Text → List Sighting → Option ℤ
latest email [] = none
latest email (o ∷ h) = if text_eq o.email email then some o.total else latest email h

-- Did the user do something between the last call for them and this one?
unfoldable pub moved : Sighting → List Sighting → Bool
unfolding latest
moved o h =
    o.online
    || elim (latest o.email h) [ none ↦ is_positive o.total | some t ↦ not (int_eq o.total t) ]

-- Did the user do something in the 15 minutes before `now`?
unfoldable pub recently : ℕ → Text → List Sighting → Bool
unfolding moved
recently now email [] = false
recently now email (o ∷ h) =
    (text_eq o.email email && moved o h && leb now (o.at + idle_hide)) || recently now email h

-- The clock does not go back: each call is no earlier than the one before it.
abbrev pub IsTimed : ℕ → List Sighting → Type 0
IsTimed now [] = Unit
IsTimed now (o ∷ h) = (o.at ≤ now) × IsTimed o.at h

-- when the user last did something
last_move : Text → List Sighting → Option ℕ
last_move email [] = none
last_move email (o ∷ h) =
    if text_eq o.email email && moved o h then some o.at else last_move email h

int_eq_sound : (a b : ℤ) → int_eq a b ≡ true → a ≡ b
unfolding int_eq
int_eq_sound (ℤ.pos m) (ℤ.pos n) h = ground arith
int_eq_sound (ℤ.pos m) (ℤ.negsuc n) h = cc
int_eq_sound (ℤ.negsuc m) (ℤ.pos n) h = cc
int_eq_sound (ℤ.negsuc m) (ℤ.negsuc n) h = ground arith

-- the entry that a history leaves
abbrev entry_of : Text → List Sighting → Option ActivityEntry
entry_of email h = elim (latest email h) [
  | none ↦ none
  | some t ↦ some (record { last_bytes = t; last_active = last_move email h })
]

last_move-unseen :
    (email : Text) (h : List Sighting) → latest email h ≡ none → last_move email h ≡ none
unfolding latest last_move
last_move-unseen email [] e = refl
last_move-unseen email (o ∷ h) e = ground (arith, last_move-unseen email h)

-- the entry of the user of a call after it
abbrev entry_after : Sighting → Option ActivityEntry → ActivityEntry
entry_after o none = first_entry o
entry_after o (some e) = next_entry o e

lookup-observe :
    (email : Text) (o : Sighting) (t : Tracker)
    → lookup email (observe o t).1
      ≡ (if text_eq o.email email then some (entry_after o (lookup o.email t)) else lookup email t)
unfolding observe
lookup-observe email o t = elim (Option-cases (lookup o.email t)) [
  | inl gone ↦ ground (arith, gone, lookup-insert o.email email (first_entry o) t)
  | inr (e, found) ↦ ground (arith, found, lookup-insert o.email email (next_entry o e) t)
]

unchanged_total :
    (o : Sighting) (t : ℤ) (m : Option ℕ)
    → next_entry o (record { last_bytes = t; last_active = m }) ≡ record {
      last_bytes = o.total;
      last_active = if o.online || not (int_eq o.total t) then some o.at else m;
    }
unfolding next_entry
unchanged_total o t m = ground (arith, int_eq_sound o.total t)

entry_after_lem :
    (o : Sighting) (h : List Sighting)
    → entry_after o (entry_of o.email h) ≡ record {
      last_bytes = o.total;
      last_active = if moved o h then some o.at else last_move o.email h;
    }
entry_after_lem o h = elim (Option-cases (latest o.email h)) [
  | inl gone ↦ unfold moved first_entry in ground (arith, gone, last_move-unseen o.email h)
  | inr (t, found) ↦
      unfold moved in ground (arith, found, unchanged_total o t (last_move o.email h))
]

lookup-run : (email : Text) (h : List Sighting) → lookup email (run h) ≡ entry_of email h
unfolding run latest last_move lookup
lookup-run email [] = refl
lookup-run email (o ∷ h) = elim (Bool-cases (text_eq o.email email)) [
  | inl same ↦
      let e : o.email ≡ email = (text_eq_iff o.email email).0 same in
      ground
        (arith, same, e, lookup-observe email o (run h), lookup-run o.email h, entry_after_lem o h)
  | inr other ↦ ground (arith, other, lookup-observe email o (run h), lookup-run email h)
]

-- nothing happened after the last call
last_move_early :
    (now t : ℕ) (email : Text) (h : List Sighting)
    → IsTimed now h
    → last_move email h ≡ some t
    → t ≤ now
unfolding last_move
last_move_early now t email [] timed e = cc
last_move_early now t email (o ∷ h) timed e =
    ground (arith, last_move_early o.at t email h timed.1, timed.0)

recently_lem :
    (now later : ℕ) (email : Text) (h : List Sighting)
    → IsTimed now h
    → recently later email h ≡ is_recent later (last_move email h)
unfolding recently last_move is_recent
recently_lem now later email [] timed = refl
recently_lem now later email (o ∷ h) timed = elim (Option-cases (last_move email h)) [
  | inl gone ↦ ground (arith, gone, recently_lem o.at later email h timed.1)
  | inr (t, found) ↦ ground (
    arith,
    found,
    recently_lem o.at later email h timed.1,
    last_move_early o.at t email h timed.1 found,
  )
]

-- A call of observe shows the user exactly if one of the calls since the last reset, this one
-- included, was at most 15 minutes ago and found the user online, or with another byte total than
-- the call before, or with a positive total on first sight. The clock must not go back.
pub observe_lem :
    (o : Sighting) (h : List Sighting)
    → IsTimed o.at h
    → (observe o (run h)).0 ≡ recently o.at o.email (o ∷ h)
unfolding observe is_recent moved last_move first_entry
observe_lem o h timed =
    rw (recently_lem o.at o.at o.email (o ∷ h) (ground arith, timed))
      (elim (Option-cases (latest o.email h)) [
        | inl gone ↦ ground (
          arith,
          gone,
          lookup-run o.email h,
          last_move-unseen o.email h,
          text_eq_iff o.email o.email,
        )
        | inr (t, found) ↦ ground (
          arith,
          found,
          lookup-run o.email h,
          unchanged_total o t (last_move o.email h),
          text_eq_iff o.email o.email,
        )
      ])
