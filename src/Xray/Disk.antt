-- ===== src/Xray/Disk.antt =====
-- `Read`, `Write` and `backupIfExists` of internal/xray/config.go.
pub mod Atomic
pub mod Calm
use flint2_xray_web_console.Base.{Option, none, some, Text, ok, err, fail}
use flint2_xray_web_console.Exec.{
  Exec, pure, raise, lift, wrapping, ignoring, deferring, or_undo, ◌>>=◌, ◌>>◌,
}
use flint2_xray_web_console.Base.Errors.{Result, wrap_err}
use flint2_xray_web_console.Os.{
  Env, World, FilePath, named, Content, json, raw, ReadResult, contents, missing, unreadable,
  read_file, write_file, create_temp, touch, rename, remove, bak,
}
use flint2_xray_web_console.Xray.Model.{File}
use flint2_xray_web_console.Xray.Codec.{decode_file, encode_file}

-- `json.Unmarshal` on the bytes of a file
unfoldable pub parse : Content → Result File
parse (json v) = decode_file v
parse (raw s) = err (fail "invalid JSON")

module _ (env : Env) where
  unfoldable pub read_config : Text → Exec World File
  unfolding parse read_file
  read_config path = do
    found ← read_file env (named path)
    elim found [
      | contents c ↦ lift (wrap_err "parse" (parse c))
      | missing ↦ raise (fail "read")
      | unreadable ↦ raise (fail "read")
    ]

  unfoldable pub backup_if_exists : Text → Exec World (Unit {0})
  unfolding read_file write_file
  backup_if_exists path = do
    found ← read_file env (named path)
    elim found [
      | contents c ↦ wrapping "write backup" (write_file env (named (bak path)) c)
      | missing ↦ pure tt
      | unreadable ↦ raise (fail "read existing for backup")
    ]

  -- the temporary file, from its first byte to its new name
  unfoldable pub replace : FilePath → Text → Content → Exec World (Unit {0})
  unfolding write_file touch rename
  replace tmp path out = do
    or_undo (touch env) (wrapping "write tmp" (write_file env tmp out))
    or_undo (touch env) (wrapping "fsync tmp" (touch env))
    wrapping "close tmp" (touch env)
    wrapping "rename over target" (rename env tmp (named path))

  -- `Write` from `os.CreateTemp` on
  unfoldable pub install : Text → Content → Exec World (Unit {0})
  unfolding create_temp remove
  install path out = do
    tmp ← wrapping "create tmp" (create_temp env)
    deferring (remove env tmp) (replace tmp path out)

  unfoldable pub write_config : Text → File → Exec World (Unit {0})
  write_config path f = do
    let out = encode_file f
    wrapping "refusing to write unparseable config" (lift (decode_file out))
    backup_if_exists path
    install path (json out)
