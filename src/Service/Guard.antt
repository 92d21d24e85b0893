-- ===== src/Service/Guard.antt =====
-- What each action of the service manager runs, and what it leaves alone.
use flint2_xray_web_console.Base.{◌≡◌, true, false, ◌∷◌, codes, arith, if◌then◌else◌, Bool, ◌+◌}
use flint2_xray_web_console.Base.Errors.{is_ok}
use flint2_xray_web_console.Os.{Env, World, Exit, exit_ok}
use flint2_xray_web_console.Service.{Manager, test_command, init_command, restart}

-- exit code 0
abbrev pub succeeded : Exit → Bool
succeeded exit_ok = true
succeeded _ = false

-- Restart runs `xray -test` on the configured file first, and the init script's restart only if
-- that exits with 0; it succeeds exactly if both do.
pub restart_guarded :
    (env : Env) (m : Manager) (w : World)
    → let test = test_command m m.config_path in
      let script = init_command m (codes "restart") in
      let accepted = succeeded (env.runs w.calls test).exit in
      let (r, w') = restart env m w in
      (w'.executed ≡ (if accepted then script ∷ test ∷ w.executed else test ∷ w.executed))
      × (is_ok r ≡ (if accepted then succeeded (env.runs (w.calls + 1) script).exit else false))
      × (w'.files ≡ w.files)
unfolding restart
restart_guarded env m w = ground arith
