-- ===== src/PanelConfig/Usable.antt =====
-- Which configurations `validate` accepts.
use flint2_xray_web_console.Base.{
  ◌≡◌, ◌↔◌, true, false, Text, codes, ok, is_nil, is_some, arith, All, ◌||◌, List, [], ◌∷◌, refl,
}
use flint2_xray_web_console.Base.HostPort.{split_host_port}
use flint2_xray_web_console.Base.Strings.{has_prefix}
use flint2_xray_web_console.Panel.Types.{Config}
use flint2_xray_web_console.PanelConfig.{check_paths, is_abs, validate_config, check_path}

-- Addresses are of a host and a port, paths are absolute, and the credentials are there.
pub record IsUsable (c : Config) : Type 0 where
  pub listen : is_some (split_host_port c.listen) ≡ true
  pub address : is_nil c.server_address ≡ false
  pub paths :
      All (λ p. is_abs p ≡ true) (c.xray_config ∷ c.xray_bin ∷ c.xray_init ∷ c.disabled_store ∷ [])
  pub stats : (is_nil c.stats_api || is_some (split_host_port c.stats_api)) ≡ true
  pub username : is_nil c.auth.username ≡ false
  pub hash : has_prefix c.auth.password_bcrypt (codes "$2") ≡ true

check_paths-All : (l : List Text) → (check_paths l ≡ ok tt) ↔ All (λ p. is_abs p ≡ true) l
unfolding check_paths
check_paths-All [] = ground arith
check_paths-All ([] ∷ l) = ground arith
check_paths-All ((c ∷ s) ∷ l) = ground (arith, check_paths-All l)

split-some : (s : Text) → is_some (split_host_port s) ≡ true → is_nil s ≡ false
unfolding split_host_port
split-some [] h = ground arith
split-some (c ∷ s) h = refl

prefix-some : (s p : Text) → has_prefix s p ≡ true → is_nil p ≡ false → is_nil s ≡ false
unfolding has_prefix
prefix-some [] [] h k = k
prefix-some [] (b ∷ p) h k = ground arith
prefix-some (c ∷ s) p h k = refl

accepts : (c : Config) → validate_config c ≡ ok tt → IsUsable c
unfolding validate_config check_paths check_path
accepts c h = record {
  listen = ground arith;
  address = ground arith;
  paths =
      ground
        (arith, check_paths-All (c.xray_config ∷ c.xray_bin ∷ c.xray_init ∷ c.disabled_store ∷ []));
  stats = ground arith;
  username = ground arith;
  hash = ground arith;
}

accepted : (c : Config) → IsUsable c → validate_config c ≡ ok tt
unfolding validate_config check_paths check_path
accepted c u =
    let listen = split-some c.listen u.listen in
    let hash = prefix-some c.auth.password_bcrypt (codes "$2") u.hash refl in
    let paths =
      (check_paths-All (c.xray_config ∷ c.xray_bin ∷ c.xray_init ∷ c.disabled_store ∷ [])).1
        u.paths in
    let stats = u.stats in ground arith

-- The check of panel.yaml accepts a configuration exactly if the address to listen on and, where it
-- is given, that of the stats API have a host and a port, the public address and the user name are
-- given, the four paths are absolute, and the hash begins like one of bcrypt.
pub validate_config_lem : (c : Config) → (validate_config c ≡ ok tt) ↔ IsUsable c
validate_config_lem c = (accepts c, accepted c)
