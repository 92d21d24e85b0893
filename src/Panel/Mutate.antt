-- ===== src/Panel/Mutate.antt =====
-- `mutateConfig` of internal/http/mutate.go, the one place that rewrites config.json. A change is
-- a function of the file that it is given and of the moment, at which it may draw a random UUID.
pub mod Outcome
use flint2_xray_web_console.Base.{Option, none, Text, Result, ok}
use flint2_xray_web_console.Exec.{Exec, pure, wrapping, ◌>>=◌, ◌>>◌}
use flint2_xray_web_console.Os.{Env, World}
use flint2_xray_web_console.Service.{restart, Manager}
use flint2_xray_web_console.Xray.Model.{File}
use flint2_xray_web_console.Xray.Disk.{read_config, write_config}
use flint2_xray_web_console.Panel.Types.{Server, on_world}

-- `invalidateState`
unfoldable pub invalidate_state : Exec Server (Unit {0})
invalidate_state s = (ok tt, record s { state_entry = none })

abbrev pub Change : Type 0 → Type 0
Change A = File → World → Result (File × A)

module _ (env : Env) {A : Type 0} where
  -- what is left of the body once the path and the service manager are known, on the system
  unfoldable pub rewrite : Text → Manager → Change A → Exec World A
  rewrite path m change = do
    f ← wrapping "read config" (read_config env path)
    changed ← λ w. (change f w, w)
    wrapping "write config" (write_config env path changed.0)
    wrapping "restart xray" (restart env m)
    pure changed.1

  unfoldable pub mutate_config : Change A → Exec Server A
  unfolding invalidate_state
  mutate_config change s =
      (do a ← on_world (rewrite s.conf_path s.manager change); invalidate_state; pure a) s
