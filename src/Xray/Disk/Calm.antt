-- ===== src/Xray/Disk/Calm.antt =====
-- The write of the config where no system call fails.
use flint2_xray_web_console.Base.{◌≡◌, ◌+◌, ℕ, false, Text, ok, arith, Option-cases, inl, inr}
use flint2_xray_web_console.Os.{
  FilePath, Content, Env, World, named, temp, json, read_file, write_file, create_temp, touch,
  rename,
}
use flint2_xray_web_console.Xray.Model.{File}
use flint2_xray_web_console.Xray.Codec.{encode_file}
use flint2_xray_web_console.Xray.RoundTrip.{IsWellformedFile, decode-encode_file}
use flint2_xray_web_console.Xray.Disk.{write_config, backup_if_exists, install, replace}

module _ (env : Env) (path : Text) (calm : (n : ℕ) → env.fails n ≡ false) where
  replace_works :
      (tmp : FilePath) (out : Content) (w : World) → (replace env tmp path out w).0 ≡ ok tt
  unfolding replace write_file touch rename
  replace_works tmp out w =
      let n = w.calls in
      ground (arith, calm n, calm (n + 1), calm (n + 1 + 1), calm (n + 1 + 1 + 1))

  backup_works : (w : World) → (backup_if_exists env path w).0 ≡ ok tt
  unfolding backup_if_exists read_file write_file
  backup_works w = elim (Option-cases (w.files (named path))) [
    | inl gone ↦ ground (arith, gone, calm w.calls)
    | inr (c, there) ↦ ground (arith, there, calm w.calls, calm (w.calls + 1))
  ]

  install_works : (out : Content) (w : World) → (install env path out w).0 ≡ ok tt
  unfolding install create_temp
  install_works out w =
      ground (arith, calm w.calls, replace_works (temp w.temps) out (create_temp env w).1)

  -- A well-formed config is written.
  pub write_config_works :
      (f : File) (w : World) → IsWellformedFile f → (write_config env path f w).0 ≡ ok tt
  unfolding write_config
  write_config_works f w wf = ground (
    arith,
    decode-encode_file f wf,
    backup_works w,
    install_works (json (encode_file f)) (backup_if_exists env path w).1,
  )
