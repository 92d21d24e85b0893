-- ===== src/Store/Calm.antt =====
-- The store where no system call fails.
use flint2_xray_web_console.Base.{
  ◌++◌, [], ◌∷◌, ◌+◌, ◌≡◌, ℕ, true, false, Text, arith, Option-cases, inl, inr, ◌+◌, List, not,
  is_some, ◌++◌,
}
use flint2_xray_web_console.Base.Errors.{is_ok}
use flint2_xray_web_console.Os.{
  temp, json, FilePath, Content, Env, World, named, read_file, write_file, touch, rename,
  create_temp, tick,
}
use flint2_xray_web_console.Store.{backup_if_exists, replace, write, install, add, find_entry}
use flint2_xray_web_console.Xray.Model.{Client}
use flint2_xray_web_console.Store.Format.{DisabledClient, encode_store}
use flint2_xray_web_console.Store.Contract.{Holds, list_lem, entry_at}

module _ (env : Env) (path : Text) (calm : (n : ℕ) → env.fails n ≡ false) where
  replace_works :
      (tmp : FilePath) (out : Content) (w : World) → is_ok (replace env path tmp out w).0 ≡ true
  unfolding replace write_file touch rename
  replace_works tmp out w =
      let n = w.calls in
      ground (
        arith,
        calm n,
        calm (n + 1),
        calm (n + 1 + 1),
        calm (n + 1 + 1 + 1),
        calm (n + 1 + 1 + 1 + 1),
      )

  backup_works : (w : World) → is_ok (backup_if_exists env path w).0 ≡ true
  unfolding backup_if_exists read_file write_file
  backup_works w = elim (Option-cases (w.files (named path))) [
    | inl gone ↦ ground (arith, gone, calm w.calls)
    | inr (c, there) ↦ ground (arith, there, calm w.calls, calm (w.calls + 1))
  ]

  install_works : (out : Content) (w : World) → is_ok (install env path out w).0 ≡ true
  unfolding install create_temp
  install_works out w =
      ground (arith, calm w.calls, replace_works (temp w.temps) out (create_temp env w).1)

  write_works : (l : List DisabledClient) (w : World) → is_ok (write env path l w).0 ≡ true
  unfolding write touch
  write_works l w = ground (
    arith,
    calm w.calls,
    backup_works (tick w),
    install_works (json (encode_store l)) (backup_if_exists env path (tick w)).1,
  )

  -- On a store file that stands for a list of entries, while no system call fails: Add succeeds
  -- exactly on the UUIDs that the list does not have.
  pub add_works :
      (c : Client) (w : World) (ds : List DisabledClient)
      → Holds env path w ds
      → is_ok (add env path c w).0 ≡ not (is_some (find_entry c.id ds))
  unfolding add
  add_works c w ds held = elim (Option-cases (find_entry c.id ds)) [
    | inl fresh ↦ ground (
      arith,
      fresh,
      list_lem env path w,
      calm w.calls,
      write_works (ds ++ entry_at env path c w ∷ []) (tick w),
    )
    | inr (d, there) ↦ ground (arith, there, list_lem env path w, calm w.calls)
  ]
