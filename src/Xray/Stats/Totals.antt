-- ===== src/Xray/Stats/Totals.antt =====
-- What `parseStats` adds up for a user.
use flint2_xray_web_console.Base.{
  ◌≡◌, Bool, false, Option, none, some, List, [], ◌∷◌, Text, codes, text_eq, text_eq_iff, or_else,
  if◌then◌else◌, ◌&&◌, ◌||◌, refl, arith, sym, ◌∙◌, Option-cases,
}
use flint2_xray_web_console.Base.Int.{ℤ, pos}
use flint2_xray_web_console.Json.Map.{Map, lookup, lookup-insert}
use flint2_xray_web_console.Xray.Stats.{
  Reader, StatEntry, UserStats, parse_user_stat_name, coerce_int, add_entry, by_email, totals_of,
  set_direction,
}

-- Is this the name of a counter of the user in this direction?
abbrev pub counts : Text → Text → StatEntry → Bool
counts email direction e = elim (parse_user_stat_name e.name) [
  | none ↦ false
  | some (u, d) ↦ text_eq u email && text_eq d direction
]

-- Is it the name of any counter of the user?
abbrev pub mentions : Text → List StatEntry → Bool
mentions email [] = false
mentions email (e ∷ es) =
    elim (parse_user_stat_name e.name) [ none ↦ false | some (u, d) ↦ text_eq u email ]
    || mentions email es

abbrev user_of : StatEntry → Text
user_of e = elim (parse_user_stat_name e.name) [ none ↦ [] | some (u, d) ↦ u ]

abbrev direction_of : StatEntry → Text
direction_of e = elim (parse_user_stat_name e.name) [ none ↦ [] | some (u, d) ↦ d ]

module _ (rd : Reader) where
  -- the value of the last such counter
  abbrev pub last_value : Text → Text → List StatEntry → Option ℤ
  last_value email direction [] = none
  last_value email direction (e ∷ es) =
      or_else (last_value email direction es)
        (if counts email direction e then some (coerce_int rd e.value) else none)

  abbrev from_option : ℤ → Option ℤ → ℤ
  from_option z none = z
  from_option z (some v) = v

  -- the totals of the user after the entries, from those before
  abbrev after : Text → List StatEntry → Option UserStats → Option UserStats
  after email es (some u) = some (record {
    email = email;
    uplink = from_option u.uplink (last_value email (codes "uplink") es);
    downlink = from_option u.downlink (last_value email (codes "downlink") es);
  })
  after email es none =
      if mentions email es
      then some (record {
        email = email;
        uplink = from_option (pos 0) (last_value email (codes "uplink") es);
        downlink = from_option (pos 0) (last_value email (codes "downlink") es);
      })
      else none

  unfoldable HasOwnEmail : Text → Option UserStats → Type 0
  HasOwnEmail email none = Unit
  HasOwnEmail email (some u) = u.email ≡ email

  unmentioned :
      (email direction : Text) (es : List StatEntry)
      → mentions email es ≡ false
      → last_value email direction es ≡ none
  unmentioned email direction [] h = refl
  unmentioned email direction (e ∷ es) h = ground (arith, unmentioned email direction es)

  after_nil : (email : Text) (o : Option UserStats) → HasOwnEmail email o → o ≡ after email [] o
  unfolding HasOwnEmail
  after_nil email none h = refl
  after_nil email (some u) h = rw (sym h) refl

  -- an entry, for one user
  abbrev step : Text → StatEntry → Option UserStats → Option UserStats
  step email e o = elim (parse_user_stat_name e.name) [
    | none ↦ o
    | some (u, d) ↦
        if text_eq u email
        then some (
            set_direction d (coerce_int rd e.value) (elim o [
              | none ↦ record { email = email; uplink = pos 0; downlink = pos 0 }
              | some t ↦ t
            ]))
        else o
  ]

  lookup-add_entry :
      (email : Text) (e : StatEntry) (m : Map UserStats)
      → lookup email (add_entry rd e m) ≡ step email e (lookup email m)
  unfolding add_entry totals_of
  lookup-add_entry email e m = ground (
    arith,
    Option-cases (parse_user_stat_name e.name),
    text_eq_iff (user_of e) email,
    lookup-insert (user_of e) email
        (set_direction (direction_of e) (coerce_int rd e.value) (totals_of (user_of e) m)) m,
  )

  step-HasOwnEmail :
      (email : Text) (e : StatEntry) (o : Option UserStats)
      → HasOwnEmail email o
      → HasOwnEmail email (step email e o)
  unfolding HasOwnEmail set_direction
  step-HasOwnEmail email e none h = ground arith
  step-HasOwnEmail email e (some u) h = ground arith

  after-step :
      (email : Text) (e : StatEntry) (es : List StatEntry) (o : Option UserStats)
      → HasOwnEmail email o
      → after email es (step email e o) ≡ after email (e ∷ es) o
  unfolding HasOwnEmail set_direction
  after-step email e es none h = ground (
    arith,
    unmentioned email (codes "uplink") es,
    unmentioned email (codes "downlink") es,
    text_eq_iff (direction_of e) (codes "uplink"),
    text_eq_iff (direction_of e) (codes "downlink"),
  )
  after-step email e es (some u) h = ground (
    arith,
    text_eq_iff (direction_of e) (codes "uplink"),
    text_eq_iff (direction_of e) (codes "downlink"),
  )

  totals_after :
      (email : Text) (es : List StatEntry) (m : Map UserStats)
      → HasOwnEmail email (lookup email m)
      → lookup email (by_email rd es m) ≡ after email es (lookup email m)
  unfolding by_email
  totals_after email [] m h = after_nil email (lookup email m) h
  totals_after email (e ∷ es) m h =
      totals_after email es (add_entry rd e m)
        (rw (lookup-add_entry email e m) (step-HasOwnEmail email e (lookup email m) h))
      ∙ rw (lookup-add_entry email e m) (after-step email e es (lookup email m) h)

  -- The users that parseStats finds are those that some counter name mentions, and in each
  -- direction a user's total is the value of the last counter of the user in that direction, or 0
  -- if there is none.
  pub totals_lem :
      (email : Text) (es : List StatEntry)
      → lookup email (by_email rd es []) ≡ (
          if mentions email es
          then some (record {
            email = email;
            uplink = from_option (pos 0) (last_value email (codes "uplink") es);
            downlink = from_option (pos 0) (last_value email (codes "downlink") es);
          })
          else none)
  unfolding lookup HasOwnEmail
  totals_lem email es = totals_after email es [] tt
