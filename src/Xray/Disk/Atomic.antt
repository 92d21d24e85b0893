-- ===== src/Xray/Disk/Atomic.antt =====
-- `Write` is atomic: the file has the new config if it succeeds, and the old bytes if it fails.
use flint2_xray_web_console.Base.{
  ◌≡◌, ℕ, ◌&&◌, some, Text, text_eq, arith, if◌then◌else◌, true, ◌≢◌, text_eq_iff, text_eq_refl,
  inl, inr, false, [], ◌++◌, codes, ok, ◌∷◌, refl,
}
use flint2_xray_web_console.Base.Errors.{is_ok, Result-cases}
use flint2_xray_web_console.Os.{Env, World, named, temp, Content, bak, json, create_temp}
use flint2_xray_web_console.Xray.Disk.{
  replace, backup_if_exists, write_config, File, encode_file, decode_file, install, read_config,
}
use flint2_xray_web_console.Xray.RoundTrip.{IsWellformedFile, decode-encode_file}

text_eq-append : (s t : Text) → text_eq [] t ≡ false → text_eq s (s ++ t) ≡ false
unfolding text_eq
text_eq-append [] t h = h
text_eq-append (a ∷ s) t h = ground (arith, text_eq-append s t h)

-- A file is not its own backup.
pub path-ne-bak : (path : Text) → text_eq path (bak path) ≡ false
unfolding text_eq
path-ne-bak path = text_eq-append path (codes ".bak") refl

pub path-apart : (path : Text) → path ≢ bak path
path-apart path e = ground (arith, path-ne-bak path, text_eq_iff path (bak path))

module _ (env : Env) where
  -- Either the file is replaced whole, or no configured path has changed.
  replace_files :
      (n : ℕ) (path q : Text) (out : Content) (w : World)
      → let (r, w') = replace env (temp n) path out w in
        w'.files (named q) ≡ (if is_ok r && text_eq path q then some out else w.files (named q))
  unfolding replace
  replace_files n path q out w = ground arith

  -- A backup writes at most the file beside the config.
  backup_files :
      (path q : Text) (w : World)
      → q ≢ bak path
      → (backup_if_exists env path w).1.files (named q) ≡ w.files (named q)
  unfolding backup_if_exists
  backup_files path q w apart = ground (arith, text_eq_iff (bak path) q)

  backup_kept :
      (path : Text) (w : World) (c : Content)
      → w.files (named path) ≡ some c
      → is_ok (backup_if_exists env path w).0 ≡ true
      → (backup_if_exists env path w).1.files (named (bak path)) ≡ some c
  unfolding backup_if_exists
  backup_kept path w c h k = ground (arith, text_eq_refl (bak path))

  install_files :
      (path q : Text) (out : Content) (w : World)
      → let (r, w') = install env path out w in
        w'.files (named q) ≡ (if is_ok r && text_eq path q then some out else w.files (named q))
  unfolding install
  install_files path q out w =
      ground (arith, replace_files w.temps path q out (create_temp env w).1)

  -- Write replaces the config whole if it returns nil, and leaves it byte for byte if it returns
  -- an error; every other configured path but the backup keeps its contents either way.
  pub write_config_atomic :
      (path q : Text) (f : File) (w : World)
      → q ≢ bak path
      → let (r, w') = write_config env path f w in
        w'.files (named q)
        ≡ (if is_ok r && text_eq path q then some (json (encode_file f)) else w.files (named q))
  unfolding write_config
  write_config_atomic path q f w apart = elim (Result-cases (decode_file (encode_file f))) [
    | inl (e, refused) ↦ rw refused (ground arith)
    | inr (g, probed) ↦ rw probed (
        ground (
          arith,
          backup_files path q w apart,
          install_files path q (json (encode_file f)) (backup_if_exists env path w).1,
        ))
  ]

  -- After a Write that returns nil the old bytes are in the backup.
  pub write_config_backup :
      (path : Text) (f : File) (w : World) (c : Content)
      → w.files (named path) ≡ some c
      → is_ok (write_config env path f w).0 ≡ true
      → (write_config env path f w).1.files (named (bak path)) ≡ some c
  unfolding write_config
  write_config_backup path f w c h k = elim (Result-cases (decode_file (encode_file f))) [
    | inl (e, refused) ↦ absurd (ground (arith, refused))
    | inr (g, probed) ↦ rw probed (
        ground (
          arith,
          probed,
          backup_kept path w c h,
          install_files path (bak path) (json (encode_file f)) (backup_if_exists env path w).1,
          path-ne-bak path,
        ))
  ]

  -- A config that the panel wrote is the config that it reads, unless the read itself fails.
  pub read_written :
      (path : Text) (f : File) (w : World)
      → IsWellformedFile f
      → w.files (named path) ≡ some (json (encode_file f))
      → env.fails w.calls ≡ false
      → (read_config env path w).0 ≡ ok f
  unfolding read_config
  read_written path f w wf h live = ground (arith, decode-encode_file f wf)
