-- ===== src/Panel/Activity.antt =====
-- The handlers of internal/http/activity.go.
pub mod Rows
use flint2_xray_web_console.Base.{
  ℕ, ◌+◌, Bool, true, false, Option, none, some, List, [], ◌∷◌, Text, codes, ok, err, fail, wrap,
  if◌then◌else◌, is_nil, is_some, ◌&&◌,
}
use flint2_xray_web_console.Base.Errors.{Result, is_ok}
use flint2_xray_web_console.Base.Int.{ℤ, pos}
use flint2_xray_web_console.Base.Decimal.{add_int64}
use flint2_xray_web_console.Activity.{Tracker, Sighting, observe, reset, is_positive}
use flint2_xray_web_console.Json.Map.{Map, lookup, insert}
use flint2_xray_web_console.Os.{Env, World, tick}
use flint2_xray_web_console.Xray.Stats.{Reader, UserStats, OnlineUser, StatsClient}
use flint2_xray_web_console.Xray.Stats.Query.{query_users, query_online, reset_users}
use flint2_xray_web_console.Panel.Types.{
  Server, Response, ActivityUserRow, ActivityResponse, reply, reply_error, activity_body,
  status_body, on_world,
}

-- `onlineByEmail`
unfoldable pub online_by_email : List OnlineUser → Map ℤ → Map ℤ
online_by_email [] m = m
online_by_email (u ∷ us) m = online_by_email us (insert u.email u.sessions m)

-- Nobody is online where the query fails.
unfoldable pub online_of : Result (List OnlineUser) → Map ℤ
unfolding online_by_email
online_of (err e) = []
online_of (ok us) = online_by_email us []

abbrev pub sessions_of : Text → Map ℤ → ℤ
sessions_of email m = elim (lookup email m) [ none ↦ pos 0 | some n ↦ n ]

-- what the loop has made
pub record Listed : Type 0 where
  pub rows : List ActivityUserRow
  pub hidden : ℕ
  pub tracker : Tracker
  pub world : World

-- the call of `observe` for a user
unfoldable pub sighting : ℕ → Map ℤ → UserStats → Sighting
unfolding add_int64 is_positive
sighting now online u = record {
  at = now;
  email = u.email;
  total = add_int64 u.uplink u.downlink;
  online = is_positive (sessions_of u.email online);
}

unfoldable pub row_of : Map ℤ → UserStats → ActivityUserRow
unfolding is_positive
row_of online u = record {
  email = u.email;
  uplink = u.uplink;
  downlink = u.downlink;
  online = is_positive (sessions_of u.email online);
  sessions = sessions_of u.email online;
}

-- a row that is shown, or one that is hidden
unfoldable pub add_row : Bool → ActivityUserRow → Listed → Listed
add_row true row l = record l { rows = row ∷ l.rows }
add_row false row l = record l { hidden = l.hidden + 1 }

-- `s.tracker()`
abbrev pub tracker_of : Option Tracker → Tracker
tracker_of none = reset
tracker_of (some t) = t

module _ (env : Env) where
  -- the loop over the users; each call of `observe` reads the clock
  unfoldable pub list_rows : Map ℤ → List UserStats → Tracker → World → Listed
  list_rows online [] t w = record { rows = []; hidden = 0; tracker = t; world = w }
  list_rows online (u ∷ us) t w =
      let seen = observe (sighting (env.clock w.calls) online u) t in
      add_row seen.0 (row_of online u) (list_rows online us seen.1 (tick w))

  abbrev pub stats_client : Server → StatsClient
  stats_client s = record { xray_bin = s.cfg.xray_bin; server = s.cfg.stats_api }

  -- the answer, once both commands have run
  unfoldable pub list_activity :
      List UserStats → Result (List OnlineUser) → Server → Response × Server
  unfolding list_rows
  list_activity stats o s =
      let l = list_rows (online_of o) stats (tracker_of s.activity) s.world in
      (
        reply 200 (
            activity_body (record {
              enabled = true;
              online_tracked = is_ok o;
              users = l.rows;
              hidden_idle = l.hidden;
              message = [];
            })),
        record s { activity = some l.tracker; world = l.world },
      )

  unfoldable pub handle_activity : Reader → Server → Response × Server
  unfolding query_users query_online list_activity
  handle_activity rd s =
      if is_nil s.cfg.stats_api
      then (
        reply 200 (
            activity_body (record {
              enabled = false;
              online_tracked = false;
              users = [];
              hidden_idle = 0;
              message =
                  codes
                    "stats_api is not configured; use POST /api/server/enable-stats to turn it on";
            })),
        s,
      )
      else let (r, s') = on_world (query_users env (stats_client s) rd) s in
        elim r [
          | err e ↦ (reply_error 500 (wrap "query stats" e), s')
          | ok stats ↦
              let (o, s'') = on_world (query_online env (stats_client s) rd) s' in
              list_activity stats o s''
        ]

  unfoldable pub handle_activity_reset : Server → Response × Server
  unfolding reset_users
  handle_activity_reset s =
      if is_nil s.cfg.stats_api
      then (reply_error 400 (fail "stats_api is not configured"), s)
      else let (r, s') = on_world (reset_users env (stats_client s)) s in
        elim r [
          | err e ↦ (reply_error 500 (wrap "reset stats" e), s')
          | ok _ ↦ (reply 200 (status_body (codes "reset")), record s' { activity = some reset })
        ]
