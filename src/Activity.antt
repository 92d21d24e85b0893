-- ===== src/Activity.antt =====
-- The tracker of internal/http/activity.go: when each user was last seen to do something. A time is
-- in milliseconds, and the zero time is `none`.
pub mod History
use flint2_xray_web_console.Base.{
  ℕ, ◌+◌, Bool, true, false, Option, none, some, [], Text, if◌then◌else◌, ◌||◌, not, leb, ltb, ◌==◌,
}
use flint2_xray_web_console.Base.Int.{ℤ}
use flint2_xray_web_console.Json.Map.{Map, lookup, insert}

-- `activityIdleHide`: 15 minutes
abbrev pub idle_hide : ℕ
idle_hide = 900000

pub record ActivityEntry : Type 0 where
  pub last_bytes : ℤ
  pub last_active : Option ℕ

abbrev pub Tracker : Type 0
Tracker = Map ActivityEntry

unfoldable pub int_eq : ℤ → ℤ → Bool
int_eq (ℤ.pos m) (ℤ.pos n) = m == n
int_eq (ℤ.pos m) (ℤ.negsuc n) = false
int_eq (ℤ.negsuc m) (ℤ.pos n) = false
int_eq (ℤ.negsuc m) (ℤ.negsuc n) = m == n

unfoldable pub is_positive : ℤ → Bool
is_positive (ℤ.pos n) = ltb 0 n
is_positive (ℤ.negsuc n) = false

-- one call of `observe`: its time and its arguments
pub record Sighting : Type 0 where
  pub at : ℕ
  pub email : Text
  pub total : ℤ
  pub online : Bool

-- the entry of a user seen for the first time
unfoldable pub first_entry : Sighting → ActivityEntry
unfolding is_positive
first_entry o = record {
  last_bytes = o.total;
  last_active = if is_positive o.total || o.online then some o.at else none;
}

-- the entry of a user seen before
unfoldable pub next_entry : Sighting → ActivityEntry → ActivityEntry
unfolding int_eq
next_entry o e =
    if o.online || not (int_eq o.total e.last_bytes)
    then record { last_bytes = o.total; last_active = some o.at }
    else e

-- `now.Sub(lastActive) <= activityIdleHide`
unfoldable pub is_recent : ℕ → Option ℕ → Bool
is_recent now none = false
is_recent now (some t) = leb now (t + idle_hide)

unfoldable pub observe : Sighting → Tracker → Bool × Tracker
unfolding first_entry next_entry is_recent
observe o t = elim (lookup o.email t) [
  | none ↦ (is_positive o.total || o.online, insert o.email (first_entry o) t)
  | some e ↦
      let e' = next_entry o e in (o.online || is_recent o.at e'.last_active, insert o.email e' t)
]

-- `reset`
abbrev pub reset : Tracker
reset = []
