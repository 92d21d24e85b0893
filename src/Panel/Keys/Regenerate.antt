-- ===== src/Panel/Keys/Regenerate.antt =====
-- POST /api/server/regenerate-keys: what stands in the config and in the cache of the public key.
use flint2_xray_web_console.Base.{
  ◌≡◌, ok, some, arith, if◌then◌else◌, Text, text_eq_refl, [], inl, ◌∙◌, List, ap, inr,
}
use flint2_xray_web_console.Base.Errors.{is_ok, Result-cases}
use flint2_xray_web_console.Os.{Env, World, named, json}
use flint2_xray_web_console.Xray.Model.{File}
use flint2_xray_web_console.Xray.Codec.{encode_file}
use flint2_xray_web_console.Xray.Keys.{Keypair, generate, key_exec}
use flint2_xray_web_console.Xray.Disk.Atomic.{path-apart}
use flint2_xray_web_console.Panel.Types.{Server}
use flint2_xray_web_console.Panel.Mutate.{rewrite}
use flint2_xray_web_console.Panel.Mutate.Outcome.{
  config_of, wrote, rewrite_files, mutate_config_lem,
}
use flint2_xray_web_console.Panel.Keys.{
  set_private_key, handle_regenerate_keys, invalidate_public_key, apply_keys,
}

module _ (env : Env) where
  -- the command changes no file
  key_exec-files :
      (bin : Text) (extra : List Text) (w : World) → (key_exec env bin extra w).1.files ≡ w.files
  unfolding key_exec
  key_exec-files bin extra w = ground arith

  generate-files : (bin : Text) (w : World) → (generate env bin w).1.files ≡ w.files
  unfolding generate
  generate-files bin w = elim (Result-cases (key_exec env bin [] w).0) [
    | inl (e, failed) ↦ rw failed (key_exec-files bin [] w)
    | inr (out, printed) ↦ rw printed (key_exec-files bin [] w)
  ]

  apply_keys_lem :
      (s : Server) (f f' : File) (kp : Keypair)
      → config_of (s.world.files (named s.conf_path)) ≡ ok f
      → set_private_key kp.private f ≡ ok (f', tt)
      → let r =
          (rewrite env s.conf_path s.manager (λ f w. set_private_key kp.private f) s.world).0 in
        let out = apply_keys env kp s in
        (out.0.status ≡ (if is_ok r then 200 else 500))
        × (out.1.pub_key ≡ (if is_ok r then [] else s.pub_key))
        × (out.1.world.files (named s.conf_path)
            ≡ (if wrote r then some (json (encode_file f')) else s.world.files (named s.conf_path)))
  unfolding apply_keys invalidate_public_key
  apply_keys_lem s f f' kp held changed =
      let change = λ (f : File) (w : World). set_private_key kp.private f in
      let files =
        rewrite_files env change s.conf_path s.manager s.world f f' tt s.conf_path held changed
          (path-apart s.conf_path) in
      ground (
        arith,
        mutate_config_lem env change s,
        files,
        text_eq_refl s.conf_path,
        Result-cases (rewrite env s.conf_path s.manager change s.world).0,
      )

  -- Where the file holds a config whose first VLESS inbound has Reality settings, and the key tool
  -- makes a key pair: with r for how the rewrite ends, the answer is 200 exactly if r is a success.
  -- The config on the disk has the new private key, and is else the old one, if r is a success or
  -- failed in the restart, and is the old file otherwise. The cached public key is dropped only on
  -- success: after a failed restart the old one stays beside the new private key.
  pub regenerate_lem :
      (s : Server) (f f' : File) (kp : Keypair)
      → config_of (s.world.files (named s.conf_path)) ≡ ok f
      → (generate env s.cfg.xray_bin s.world).0 ≡ ok kp
      → set_private_key kp.private f ≡ ok (f', tt)
      → let w = (generate env s.cfg.xray_bin s.world).1 in
        let r = (rewrite env s.conf_path s.manager (λ f w. set_private_key kp.private f) w).0 in
        let out = handle_regenerate_keys env s in
        (out.0.status ≡ (if is_ok r then 200 else 500))
        × (out.1.pub_key ≡ (if is_ok r then [] else s.pub_key))
        × (out.1.world.files (named s.conf_path)
            ≡ (if wrote r then some (json (encode_file f')) else s.world.files (named s.conf_path)))
  unfolding handle_regenerate_keys invalidate_public_key
  regenerate_lem s f f' kp held made changed =
      let s1 = record s { world = (generate env s.cfg.xray_bin s.world).1 } in
      let same = generate-files s.cfg.xray_bin s.world in
      let (status, cached, disk) = apply_keys_lem s1 f f' kp (rw same held) changed in
      let r =
        (rewrite env s.conf_path s.manager (λ f w. set_private_key kp.private f) s1.world).0 in
      rw (handle_regenerate_keys, made)
        (
          status,
          cached,
          disk
              ∙ ap
                  (λ files.
                    if wrote r then some (json (encode_file f')) else files (named s.conf_path))
                  same,
        )
