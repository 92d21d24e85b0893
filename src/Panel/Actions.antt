-- ===== src/Panel/Actions.antt =====
-- The service endpoints of internal/http/service.go and internal/http/server.go, and the probe of
-- internal/http/up.go.
pub mod Guard
use flint2_xray_web_console.Base.{Text, codes, ok, err, wrap, fail, if◌then◌else◌, not}
use flint2_xray_web_console.Exec.{Exec}
use flint2_xray_web_console.Os.{Env, World}
use flint2_xray_web_console.Service.{Manager, State, start, stop, restart, status}
use flint2_xray_web_console.Panel.Types.{
  Server, Response, reply, reply_error, service_body, no_body, on_world,
}
use Prim.Native.String.{String}

module _ (env : Env) where
  unfoldable pub handle_service_status : Server → Response × Server
  handle_service_status s =
      let (r, s') = on_world (status env s.manager) s in
      elim r [ err e ↦ (reply_error 500 e, s') | ok st ↦ (reply 200 (service_body st), s') ]

  -- `runServiceAction`
  unfoldable pub run_service_action : String → Exec World (Unit {0}) → Server → Response × Server
  unfolding handle_service_status
  run_service_action name action s =
      let (r, s') = on_world action s in
      elim r [ err e ↦ (reply_error 500 (wrap name e), s') | ok _ ↦ handle_service_status s' ]

  unfoldable pub handle_service_start : Server → Response × Server
  unfolding run_service_action
  handle_service_start s = run_service_action "start" (start env s.manager) s

  unfoldable pub handle_service_stop : Server → Response × Server
  unfolding run_service_action
  handle_service_stop s = run_service_action "stop" (stop env s.manager) s

  unfoldable pub handle_service_restart : Server → Response × Server
  unfolding run_service_action
  handle_service_restart s = run_service_action "restart" (restart env s.manager) s

  -- 200 with the pixel while the service runs, else 404
  unfoldable pub handle_up_ping : Server → Response × Server
  handle_up_ping s =
      let (r, s') = on_world (status env s.manager) s in
      elim r [
        | err e ↦ (reply_error 404 (fail "down"), s')
        | ok st ↦
            if not st.running then (reply_error 404 (fail "down"), s') else (reply 200 no_body, s')
      ]
