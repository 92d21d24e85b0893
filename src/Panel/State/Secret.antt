-- ===== src/Panel/State/Secret.antt =====
-- The Reality private key does not leave the server in the answer of GET /api/state.
use flint2_xray_web_console.Base.{◌≡◌, ok, some, arith, Text, is_nil, false, ap}
use flint2_xray_web_console.Os.{Env}
use flint2_xray_web_console.Xray.Model.{File, Inbound, RealitySettings}
use flint2_xray_web_console.Xray.Clients.{primary_inbound, set_primary, is_vless}
use flint2_xray_web_console.Xray.Clients.Primary.{primary-set_primary, primary-is_vless}
use flint2_xray_web_console.Panel.Types.{Server}
use flint2_xray_web_console.Panel.Keys.{set_private_key, public_key}
use flint2_xray_web_console.Panel.Reality.{reality_of, with_reality}
use flint2_xray_web_console.Panel.Reality.Outcome.{with_reality-reality_of}
use flint2_xray_web_console.Panel.State.{
  collect_reality, collect_parts, collect_config, reality_block, collect_rest,
}
use flint2_xray_web_console.Panel.Summary.{primary_flow}

module _ (env : Env) where
  reality_hidden :
      (i : Inbound) (rs : RealitySettings) (key : Text) (s : Server)
      → reality_of i ≡ some rs
      → is_nil rs.private_key ≡ false
      → is_nil key ≡ false
      → is_nil s.pub_key ≡ false
      → collect_reality env i s
        ≡ collect_reality env (with_reality (record rs { private_key = key }) i) s
  unfolding collect_reality public_key reality_block
  reality_hidden i rs key s found old new held =
      ground (arith, with_reality-reality_of rs (record rs { private_key = key }) i found)

  parts_hidden :
      (f : File) (i : Inbound) (rs : RealitySettings) (s : Server)
      → collect_reality env i s ≡ collect_reality env (with_reality rs i) s
      → collect_parts env f i s
        ≡ collect_parts env (set_primary (with_reality rs i) f) (with_reality rs i) s
  unfolding collect_parts collect_rest set_primary primary_flow
  parts_hidden f i rs s e = ap (collect_rest env f i) e

  -- While the public key is cached: two configs that differ only in the private key, which both
  -- have, give the same answer and leave the same server.
  pub private_key_hidden :
      (f f' : File) (i : Inbound) (rs : RealitySettings) (key : Text) (s : Server)
      → primary_inbound f ≡ ok i
      → reality_of i ≡ some rs
      → is_nil rs.private_key ≡ false
      → is_nil key ≡ false
      → is_nil s.pub_key ≡ false
      → set_private_key key f ≡ ok (f', tt)
      → collect_config env (ok f) s ≡ collect_config env (ok f') s
  unfolding collect_config
  private_key_hidden f f' i rs key s p found old new held changed =
      let i' = with_reality (record rs { private_key = key }) i in
      let at : f' ≡ set_primary i' f = unfold set_private_key in ground (arith, p, found) in
      let q : primary_inbound f' ≡ ok i' =
        rw at (primary-set_primary i' i f (unfold is_vless in primary-is_vless i f p) p) in
      let same : collect_parts env f i s ≡ collect_parts env f' i' s = rw at (
        parts_hidden f i (record rs { private_key = key }) s
          (reality_hidden i rs key s found old new held)) in
      rw (collect_config, p, q) same
