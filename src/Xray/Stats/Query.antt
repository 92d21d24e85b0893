-- ===== src/Xray/Stats/Query.antt =====
-- The calls of `StatsClient` in internal/xray/stats.go. A timeout of the command is one of the ways
-- in which it may end.
use flint2_xray_web_console.Base.{List, [], ◌∷◌, ◌++◌, Text, codes, fail, if◌then◌else◌, is_nil}
use flint2_xray_web_console.Exec.{Exec, pure, raise, lift, ◌>>=◌}
use flint2_xray_web_console.Os.{Env, World, Output, exit_ok, run}
use flint2_xray_web_console.Xray.Stats.{Reader, StatsClient, UserStats, OnlineUser, parse_stats}
use flint2_xray_web_console.Xray.Stats.Online.{parse_online_users}

-- stdout if it is not empty, else stderr
unfoldable pub shown : Output → Text
shown o = if is_nil o.stdout then o.stderr else o.stdout

module _ (env : Env) (c : StatsClient) where
  -- An error of the command carries what it printed; here it is the caller's message.
  unfoldable pub shell : List Text → Exec World Text
  unfolding run shown
  shell args = do
    o ← run env (c.xray_bin ∷ args)
    elim o.exit [ exit_ok ↦ pure (shown o) | _ ↦ raise (fail "xray api") ]

  abbrev pub stats_query : List Text → List Text
  stats_query flags =
      codes "api"
      ∷ codes "statsquery"
      ∷ codes "-server"
      ∷ c.server
      ∷ codes "-pattern"
      ∷ codes "user>>>"
      ∷ flags

  unfoldable pub query_users : Reader → Exec World (List UserStats)
  unfolding shell parse_stats
  query_users rd =
      if is_nil c.server
      then raise (fail "stats server not configured")
      else shell (stats_query []) >>= λ out. lift (parse_stats rd out)

  unfoldable pub reset_users : Exec World (Unit {0})
  unfolding shell
  reset_users =
      if is_nil c.server
      then raise (fail "stats server not configured")
      else shell (stats_query (codes "-reset" ∷ [])) >>= λ _. pure tt

  unfoldable pub query_online : Reader → Exec World (List OnlineUser)
  unfolding shell parse_online_users
  query_online rd =
      if is_nil c.server
      then raise (fail "stats server not configured")
      else shell
          (codes "api" ∷ codes "statsgetallonlineusers" ∷ (codes "--server=" ++ c.server) ∷ [])
        >>= λ out. lift (parse_online_users rd out)
