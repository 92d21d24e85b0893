-- ===== src/Service.antt =====
-- internal/service/service.go: the init script and `xray -test`. A timeout of a command is one
-- of the ways in which it may end.
pub mod Guard
use flint2_xray_web_console.Base.{
  Bool, false, List, [], ◌∷◌, Text, codes, text_eq, ok, err, fail, if◌then◌else◌, is_nil, ◌||◌,
}
use flint2_xray_web_console.Base.Bytes.{to_lower}
use flint2_xray_web_console.Base.Strings.{trim_space, contains_text, first_line_of}
use flint2_xray_web_console.Exec.{Exec, pure, raise, wrapping, ◌>>=◌, ◌>>◌}
use flint2_xray_web_console.Os.{Env, World, Output, exit_ok, exit_error, not_run, run}

pub record Manager : Type 0 where
  pub init_script : Text
  pub xray_bin : Text
  pub config_path : Text

pub record State : Type 0 where
  pub running : Bool
  pub raw : Text

-- stderr if it is not empty, else stdout
unfoldable pub combine : Output → Text
combine o = if is_nil o.stderr then o.stdout else o.stderr

unfoldable pub first_line : Text → Text
unfolding first_line_of trim_space
first_line b = let s = trim_space b in if is_nil s then codes "(no output)" else first_line_of s

-- the command line of `xray -test`
abbrev pub test_command : Manager → Text → List Text
test_command m path = m.xray_bin ∷ codes "-test" ∷ codes "-config" ∷ path ∷ []

abbrev pub init_command : Manager → Text → List Text
init_command m action = m.init_script ∷ action ∷ []

module _ (env : Env) (m : Manager) where
  unfoldable pub validate : Text → Exec World (Unit {0})
  unfolding run
  validate path = do
    o ← run env (test_command m (if is_nil path then m.config_path else path))
    elim o.exit [ exit_ok ↦ pure tt | _ ↦ raise (fail "xray -test rejected the config") ]

  -- a state from what `status` printed
  unfoldable pub state_of : Output → State
  unfolding combine trim_space contains_text to_lower
  state_of o =
      let raw = trim_space (combine o) in
      record { running = contains_text (to_lower raw) (codes "running") || is_nil raw; raw = raw }

  unfoldable pub status : Exec World State
  unfolding run state_of
  status = do
    o ← run env (init_command m (codes "status"))
    elim o.exit [
      | exit_ok ↦ pure (state_of o)
      | exit_error ↦ pure (record { running = false; raw = (state_of o).raw })
      | not_run ↦ raise (fail "status")
    ]

  unfoldable pub init_action : Text → Exec World (Unit {0})
  unfolding run
  init_action action = do
    o ← run env (init_command m action)
    elim o.exit [ exit_ok ↦ pure tt | _ ↦ raise (fail "init script failed") ]

  unfoldable pub start : Exec World (Unit {0})
  unfolding init_action
  start = init_action (codes "start")

  unfoldable pub stop : Exec World (Unit {0})
  unfolding init_action
  stop = init_action (codes "stop")

  unfoldable pub restart : Exec World (Unit {0})
  unfolding validate init_action
  restart = do wrapping "pre-restart validation failed" (validate []); init_action (codes "restart")

  unfoldable pub restart_without_validation : Exec World (Unit {0})
  unfolding init_action
  restart_without_validation = init_action (codes "restart")
