-- ===== src/Panel/Keys.antt =====
-- The Reality keys: `publicKey` and `InvalidatePublicKey` of internal/http/server.go, and POST
-- /api/server/regenerate-keys of internal/http/server_admin.go. The key tool runs the same binary
-- as the service.
pub mod Regenerate
use flint2_xray_web_console.Base.{
  Text, Result, ok, err, fail, none, some, if◌then◌else◌, is_nil, not, [],
}
use flint2_xray_web_console.Base.Errors.{◌>>=◌}
use flint2_xray_web_console.Exec.{Exec}
use flint2_xray_web_console.Os.{Env}
use flint2_xray_web_console.Xray.Model.{File}
use flint2_xray_web_console.Xray.Clients.{primary_inbound, set_primary}
use flint2_xray_web_console.Xray.Keys.{generate, derive_public, Keypair}
use flint2_xray_web_console.Panel.Types.{Server, Response, reply, reply_error, keys_body, on_world}
use flint2_xray_web_console.Panel.Mutate.{mutate_config}
use flint2_xray_web_console.Panel.Reality.{reality_of, with_reality}

-- the function that `handleRegenerateKeys` hands to `mutateConfig`
unfoldable pub set_private_key : Text → File → Result (File × Unit {0})
set_private_key key f = do
  i ← primary_inbound f
  elim (reality_of i) [
    | none ↦ err (fail "inbound has no realitySettings")
    | some rs ↦ ok (set_primary (with_reality (record rs { private_key = key }) i) f, tt)
  ]

unfoldable pub invalidate_public_key : Server → Server
invalidate_public_key s = record s { pub_key = [] }

module _ (env : Env) where
  -- the cached key, or one that is derived and then cached
  unfoldable pub public_key : Text → Exec Server Text
  unfolding derive_public
  public_key priv s =
      if not (is_nil s.pub_key)
      then (ok s.pub_key, s)
      else let (r, s') = on_world (derive_public env s.cfg.xray_bin priv) s in
        elim r [ err e ↦ (err e, s') | ok key ↦ (ok key, record s' { pub_key = key }) ]

  -- what is left of `handleRegenerateKeys` once there are new keys
  unfoldable pub apply_keys : Keypair → Server → Response × Server
  unfolding set_private_key invalidate_public_key
  apply_keys kp s =
      let (m, s') = mutate_config env (λ f w. set_private_key kp.private f) s in
      elim m [
        | err e ↦ (reply_error 500 e, s')
        | ok _ ↦ (reply 200 (keys_body kp.public), invalidate_public_key s')
      ]

  unfoldable pub handle_regenerate_keys : Server → Response × Server
  handle_regenerate_keys s =
      let (r, s') = on_world (generate env s.cfg.xray_bin) s in
      elim r [ err e ↦ (reply_error 500 e, s') | ok kp ↦ apply_keys kp s' ]
