-- ===== src/Tests/Access.antt =====
-- The theorems on who is let in, and on the configuration of the panel, at concrete inputs.
use flint2_xray_web_console.Base.{
  ◌≡◌, ◌↔◌, ℕ, true, false, some, none, List, [], ◌∷◌, Text, codes, ok, Bool, text_eq, Option,
  if◌then◌else◌,
}
use flint2_xray_web_console.Panel.Auth.{Request, answers, new_auth_cache}
use flint2_xray_web_console.Panel.Auth.Decisions.{IsCollisionFree, hashed, answers_lem}
use flint2_xray_web_console.Panel.Lan.{Ip, v4, check_lan_bind}
use flint2_xray_web_console.Panel.Lan.Guarded.{MayListen, check_lan_bind_lem}
use flint2_xray_web_console.PanelConfig.{validate_config}
use flint2_xray_web_console.PanelConfig.Usable.{IsUsable, validate_config_lem}
use flint2_xray_web_console.Tests.Samples.{settings}
use flint2_xray_web_console.Base.Errors.{Result, err, fail}

-- every text as its own digest
abbrev digest : Text → Text
digest s = s

abbrev secret : Text → Bool
secret p = text_eq p (codes "pw")

abbrev sent : Text → ℕ → Request
sent p n = record { credentials = some (codes "a", p); at = n; later = n; last = n }

abbrev requests : List Request
requests = sent (codes "pw") 1 ∷ sent (codes "no") 2 ∷ sent (codes "pw") 3 ∷ []

apart : IsCollisionFree digest (hashed requests)
apart x y hx hy e = e

answers_lem_example :
    answers digest secret (codes "a") requests new_auth_cache ≡ true ∷ false ∷ true ∷ []
unfolding text_eq
answers_lem_example = answers_lem digest secret (codes "a") requests apart

abbrev literal_ip : Text → Option Ip
literal_ip s = if text_eq s (codes "192.168.8.1") then some (v4 192 168 8 1) else none

abbrev no_names : Text → Result (List Ip)
no_names s = err (fail "no such host")

check_lan_bind_lem_example :
    (check_lan_bind literal_ip no_names (codes "192.168.8.1:8080") ≡ ok tt)
    ↔ MayListen literal_ip no_names (codes "192.168.8.1:8080")
check_lan_bind_lem_example = check_lan_bind_lem literal_ip no_names (codes "192.168.8.1:8080")

validate_config_lem_example : (validate_config settings ≡ ok tt) ↔ IsUsable settings
validate_config_lem_example = validate_config_lem settings
