-- ===== src/Panel/Admin.antt =====
-- POST /api/server/enable-stats and /api/server/enable-online-tracking of
-- internal/http/server_admin.go.
pub mod Tracking
use flint2_xray_web_console.Base.{
  ℕ, Bool, true, false, Option, none, some, Text, codes, Result, ok, err, Error, fail, wrap,
  if◌then◌else◌, is_nil, not, leb,
}
use flint2_xray_web_console.Base.Decimal.{atoi}
use flint2_xray_web_console.Base.HostPort.{split_host_port}
use flint2_xray_web_console.Base.Int.{ℤ, pos, negsuc}
use flint2_xray_web_console.Json.{Json}
use flint2_xray_web_console.Os.{Env}
use flint2_xray_web_console.Xray.Model.{File}
use flint2_xray_web_console.Xray.Disk.{read_config}
use flint2_xray_web_console.PanelConfig.Rewrite.{write_stats_api}
use flint2_xray_web_console.Panel.Types.{
  Server, Response, reply, reply_error, stats_body, stats_warning_body, online_body, on_world,
  status_for_err,
}
use flint2_xray_web_console.Panel.Mutate.{mutate_config}
use flint2_xray_web_console.Panel.Policy.{
  Merged, panics, failed, unchanged, changed, merge_online_flag,
}
use flint2_xray_web_console.Panel.Stats.{enable_stats}

abbrev pub default_stats_api : Text
default_stats_api = codes "127.0.0.1:10085"

-- the configured address, or the default one
abbrev pub stats_target : Text → Text
stats_target s = if is_nil s then default_stats_api else s

-- the host and the port of the target; a port must be a positive number
unfoldable pub target_parts : Text → Result (Text × ℤ)
unfolding split_host_port atoi
target_parts target = elim (split_host_port target) [
  | none ↦ err (fail "stats_api")
  | some (host, port) ↦ elim (atoi port) [
    | none ↦ err (fail "stats_api port is not a valid number")
    | some (negsuc n) ↦ err (fail "stats_api port is not a valid number")
    | some (pos n) ↦
        if leb n 0 then err (fail "stats_api port is not a valid number") else ok (host, pos n)
  ]
]

-- the server with this address in its configuration
abbrev pub with_stats_api : Text → Server → Server
with_stats_api target s = record s { cfg = record s.cfg { stats_api = target } }

-- the function that `handleEnableOnlineTracking` hands to `mutateConfig`; it panics on no file but
-- those on which the reading before it does
unfoldable pub enable_online : File → Result (File × Unit {0})
unfolding merge_online_flag
enable_online f = elim (merge_online_flag f.policy) [
  | panics ↦ err (fail "panic")
  | failed e ↦ err e
  | unchanged ↦ ok (f, tt)
  | changed j ↦ ok (record f { policy = some j }, tt)
]

module _ (env : Env) (render : Json → Text) where
  -- the address is kept, in the server and in panel.yaml, if none was configured
  unfoldable pub persist_stats_api : Text → Server → Response × Server
  unfolding write_stats_api
  persist_stats_api target s =
      if not (is_nil s.cfg.stats_api)
      then (reply 200 (stats_body target), s)
      else if is_nil s.panel_config_path
      then (reply 200 (stats_body target), with_stats_api target s)
      else let (r, s') =
          on_world (write_stats_api env render s.panel_config_path target)
            (with_stats_api target s) in
        elim r [
          | err e ↦ (reply 200 (stats_warning_body target e), s')
          | ok _ ↦ (reply 200 (stats_body target), s')
        ]

  unfoldable pub handle_enable_stats : Server → Response × Server
  unfolding target_parts enable_stats persist_stats_api
  handle_enable_stats s =
      let target = stats_target s.cfg.stats_api in
      elim (target_parts target) [
        | err e ↦ (reply_error 400 e, s)
        | ok (host, port) ↦
            let (r, s') = mutate_config env (λ f w. enable_stats host port f) s in
            elim r [
              | err e ↦ (reply_error (status_for_err e) e, s')
              | ok _ ↦ persist_stats_api target s'
            ]
      ]

module _ (env : Env) where
  -- the rewrite, once the reading before it has found something to change
  unfoldable pub turn_online_on : Server → Response × Server
  unfolding enable_online
  turn_online_on s =
      let (m, s') = mutate_config env (λ f w. enable_online f) s in
      elim m [ err e ↦ (reply_error 500 e, s') | ok _ ↦ (reply 200 (online_body false), s') ]

  -- what follows the first reading; `none` where the handler panics, and the connection is closed
  -- without an answer
  unfoldable pub tracking_from : Result File → Server → Option Response × Server
  unfolding merge_online_flag turn_online_on
  tracking_from (err e) s = (some (reply_error 500 (wrap "read config" e)), s)
  tracking_from (ok f) s = elim (merge_online_flag f.policy) [
    | panics ↦ (none, s)
    | failed e ↦ (some (reply_error 500 e), s)
    | unchanged ↦ (some (reply 200 (online_body true)), s)
    | changed j ↦ let (a, s') = turn_online_on s in (some a, s')
  ]

  unfoldable pub handle_enable_online_tracking : Server → Option Response × Server
  unfolding read_config tracking_from
  handle_enable_online_tracking s =
      let (r, s') = on_world (read_config env s.conf_path) s in tracking_from r s'
