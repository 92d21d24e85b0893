-- ===== src/Store/Atomic.antt =====
-- `write` of the disabled store is atomic: the new list if it succeeds, the old bytes if it fails.
use flint2_xray_web_console.Base.{
  ◌≡◌, ◌≢◌, ℕ, ◌&&◌, some, Text, text_eq, text_eq_iff, List, arith, if◌then◌else◌,
}
use flint2_xray_web_console.Base.Errors.{is_ok}
use flint2_xray_web_console.Os.{Env, World, named, temp, Content, json, create_temp, bak, tick}
use flint2_xray_web_console.Store.Format.{DisabledClient, encode_store}
use flint2_xray_web_console.Store.{backup_if_exists, replace, install, write}

module _ (env : Env) (path : Text) where
  replace_files :
      (n : ℕ) (q : Text) (out : Content) (w : World)
      → let (r, w') = replace env path (temp n) out w in
        w'.files (named q) ≡ (if is_ok r && text_eq path q then some out else w.files (named q))
  unfolding replace
  replace_files n q out w = ground arith

  backup_files :
      (q : Text) (w : World)
      → q ≢ bak path
      → (backup_if_exists env path w).1.files (named q) ≡ w.files (named q)
  unfolding backup_if_exists
  backup_files q w apart = ground (arith, text_eq_iff (bak path) q)

  install_files :
      (q : Text) (out : Content) (w : World)
      → let (r, w') = install env path out w in
        w'.files (named q) ≡ (if is_ok r && text_eq path q then some out else w.files (named q))
  unfolding install
  install_files q out w = ground (arith, replace_files w.temps q out (create_temp env w).1)

  -- The store's `write` replaces the file whole if it returns nil, and leaves it byte for byte if
  -- it returns an error; every other configured path but the backup keeps its contents.
  pub write_atomic :
      (q : Text) (l : List DisabledClient) (w : World)
      → q ≢ bak path
      → let (r, w') = write env path l w in
        w'.files (named q)
        ≡ (if is_ok r && text_eq path q then some (json (encode_store l)) else w.files (named q))
  unfolding write
  write_atomic q l w apart = ground (
    arith,
    backup_files q (tick w) apart,
    install_files q (json (encode_store l)) (backup_if_exists env path (tick w)).1,
  )
