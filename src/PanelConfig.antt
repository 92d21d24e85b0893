-- ===== src/PanelConfig.antt =====
-- internal/config/config.go: the checks of panel.yaml.
pub mod Usable
pub mod Rewrite
use flint2_xray_web_console.Base.{
  ℕ, ◌+◌, ◌-◌, ◌/◌, ◌%◌, Bool, true, false, Option, none, some, List, [], ◌∷◌, ◌++◌, map, Text,
  codes, Result, ok, err, fail, if◌then◌else◌, is_nil, is_some, leb, ltb, ◌==◌, ◌||◌, ◌&&◌, not,
}
use flint2_xray_web_console.Base.Errors.{◌>>=◌, ◌>>◌}
use flint2_xray_web_console.Base.HostPort.{split_host_port}
use flint2_xray_web_console.Base.Strings.{has_prefix}
use flint2_xray_web_console.Exec.{Exec, pure, raise, wrapping}
use flint2_xray_web_console.Json.{Json}
use flint2_xray_web_console.Logs.Lines.{raw_lines, newline}
use flint2_xray_web_console.Os.{
  Env, World, Content, json, raw, named, bak, read_file, write_file, rename, contents, missing,
  unreadable,
}
use flint2_xray_web_console.Panel.Types.{Config}

-- `filepath.IsAbs`
abbrev pub is_abs : Text → Bool
is_abs [] = false
is_abs (c ∷ s) = c == 47

-- one round of the loop over the paths
unfoldable pub check_path : Text → Result (Unit {0})
check_path val =
    if is_nil val
    then err (fail "is required")
    else if not (is_abs val)
    then err (fail "must be an absolute path")
    else ok tt

unfoldable pub check_paths : List Text → Result (Unit {0})
unfolding check_path
check_paths [] = ok tt
check_paths (p ∷ l) = check_path p >> check_paths l

-- `validate`
unfoldable pub validate_config : Config → Result (Unit {0})
unfolding check_paths split_host_port has_prefix
validate_config c =
    if is_nil c.listen
    then err (fail "listen is required")
    else if not (is_some (split_host_port c.listen))
    then err (fail "listen")
    else if is_nil c.server_address
    then err (fail "server_address is required")
    else check_paths (c.xray_config ∷ c.xray_bin ∷ c.xray_init ∷ c.disabled_store ∷ [])
      >> (if not (is_nil c.stats_api) && not (is_some (split_host_port c.stats_api))
          then err (fail "stats_api")
          else if is_nil c.auth.username
          then err (fail "auth.username is required")
          else if is_nil c.auth.password_bcrypt
          then err (fail "auth.password_bcrypt is required")
          else if not (has_prefix c.auth.password_bcrypt (codes "$2"))
          then err (fail "auth.password_bcrypt does not look like a bcrypt hash")
          else ok tt)
