-- ===== src/Store.antt =====
-- internal/store/disabled.go: the clients that are switched off, in a JSON file of their own.
pub mod Format
pub mod RoundTrip
pub mod Atomic
pub mod Contract
pub mod Calm
pub mod Remove
use flint2_xray_web_console.Base.{
  ℕ, Bool, true, false, Option, none, some, List, [], ◌∷◌, ◌++◌, Text, codes, text_eq, ok, err,
  fail, if◌then◌else◌, is_nil, Result,
}
use flint2_xray_web_console.Exec.{
  Exec, pure, raise, lift, wrapping, ignoring, deferring, or_undo, ◌>>=◌, ◌>>◌,
}
use flint2_xray_web_console.Os.{
  Env, World, FilePath, named, Content, json, raw, ReadResult, contents, missing, unreadable,
  read_file, write_file, create_temp, touch, rename, remove, bak,
}
use flint2_xray_web_console.Xray.Model.{Client}
use flint2_xray_web_console.Store.Format.{DisabledClient, stored, encode_store}

-- an entry with this UUID, the first one
unfoldable pub find_entry : Text → List DisabledClient → Option DisabledClient
find_entry id [] = none
find_entry id (d ∷ l) = if text_eq d.client.id id then some d else find_entry id l

-- the loop of `Remove`: the first entry with this UUID, and the slice without it
unfoldable pub take_entry :
    Text → List DisabledClient → Option (DisabledClient × List DisabledClient)
take_entry id [] = none
take_entry id (d ∷ l) =
    if text_eq d.client.id id
    then some (d, l)
    else elim (take_entry id l) [ none ↦ none | some (e, r) ↦ some (e, d ∷ r) ]

module _ (env : Env) (path : Text) where
  unfoldable pub list : Exec World (List DisabledClient)
  unfolding read_file
  list = do
    found ← read_file env (named path)
    elim found [
      | contents c ↦ lift (stored env.is_time (some c))
      | missing ↦ lift (stored env.is_time none)
      | unreadable ↦ raise (fail "read disabled store")
    ]

  unfoldable pub find_by_id : Text → Exec World (Option DisabledClient)
  unfolding list find_entry
  find_by_id id = do all ← list; pure (find_entry id all)

  unfoldable pub backup_if_exists : Exec World (Unit {0})
  unfolding read_file write_file
  backup_if_exists = do
    found ← read_file env (named path)
    elim found [
      | contents c ↦ write_file env (named (bak path)) c
      | missing ↦ pure tt
      | unreadable ↦ raise (fail "read existing for backup")
    ]

  -- the temporary file, from its first byte to its new name
  unfoldable pub replace : FilePath → Content → Exec World (Unit {0})
  unfolding write_file touch rename
  replace tmp out = do
    or_undo (touch env) (wrapping "write tmp" (write_file env tmp out))
    or_undo (touch env) (wrapping "fsync tmp" (touch env))
    wrapping "close tmp" (touch env)
    wrapping "chmod tmp" (touch env)
    wrapping "rename tmp" (rename env tmp (named path))

  -- `write` from `os.CreateTemp` on
  unfoldable pub install : Content → Exec World (Unit {0})
  unfolding create_temp remove
  install out = do
    tmp ← wrapping "create tmp" (create_temp env)
    deferring (remove env tmp) (replace tmp out)

  unfoldable pub write : List DisabledClient → Exec World (Unit {0})
  unfolding touch
  write clients = do
    wrapping "mkdir for disabled store" (touch env)
    backup_if_exists
    install (json (encode_store clients))

  unfoldable pub add : Client → Exec World (Unit {0})
  unfolding find_entry
  add c = do
    all ← list
    elim (find_entry c.id all) [
      | some _ ↦ raise (fail "client is already disabled")
      | none ↦ λ w. write (all ++ record { client = c; disabled_at = env.now w.calls } ∷ []) w
    ]

  unfoldable pub remove_entry : Text → Exec World (Option Client)
  unfolding take_entry
  remove_entry id = do
    all ← list
    elim (take_entry id all) [
      | none ↦ pure none
      | some (d, rest) ↦ do write rest; pure (some d.client)
    ]
