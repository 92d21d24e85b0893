-- ===== src/Panel/Actions/Guard.antt =====
-- POST /api/service/restart: the commands that it runs, and its answer.
use flint2_xray_web_console.Base.{
  ◌≡◌, true, false, ◌∷◌, codes, arith, if◌then◌else◌, Bool, ◌+◌, ◌&&◌,
}
use flint2_xray_web_console.Os.{Env, Exit, not_run}
use flint2_xray_web_console.Service.{test_command, init_command, restart, status}
use flint2_xray_web_console.Service.Guard.{succeeded}
use flint2_xray_web_console.Panel.Types.{Server}
use flint2_xray_web_console.Panel.Actions.{handle_service_restart, handle_service_status}

-- the command could be run, whatever its exit code
abbrev pub ran : Exit → Bool
ran not_run = false
ran _ = true

-- The restart endpoint runs `xray -test`, then the restart if the test exits with 0, then the
-- status if the restart does too; it answers 200 exactly if all three went through, and else 500.
-- It touches no file.
pub handle_service_restart_lem :
    (env : Env) (s : Server)
    → let m = s.manager in
      let n = s.world.calls in
      let test = test_command m m.config_path in
      let script = init_command m (codes "restart") in
      let probe = init_command m (codes "status") in
      let accepted = succeeded (env.runs n test).exit in
      let restarted = accepted && succeeded (env.runs (n + 1) script).exit in
      let (resp, s') = handle_service_restart env s in
      (resp.status ≡ (if restarted && ran (env.runs (n + 1 + 1) probe).exit then 200 else 500))
      × (s'.world.executed ≡ (
          if restarted
          then probe ∷ script ∷ test ∷ s.world.executed
          else if accepted
          then script ∷ test ∷ s.world.executed
          else test ∷ s.world.executed))
      × (s'.world.files ≡ s.world.files)
unfolding handle_service_restart handle_service_status restart status
handle_service_restart_lem env s = ground arith
