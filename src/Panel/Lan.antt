-- ===== src/Panel/Lan.antt =====
-- internal/http/languard.go: the addresses on which the panel may listen. The resolution of a host,
-- and the reading of a literal address, are parameters; an IPv4 address in IPv6 form is given as
-- the IPv4 one.
pub mod Guarded
use flint2_xray_web_console.Base.{
  ℕ, ◌/◌, Bool, true, false, Option, none, some, List, [], ◌∷◌, Text, codes, text_eq, Result, ok,
  err, fail, if◌then◌else◌, is_nil, leb, ◌==◌, ◌||◌, ◌&&◌, not,
}
use flint2_xray_web_console.Base.Errors.{◌>>=◌}
use flint2_xray_web_console.Base.HostPort.{split_host_port}

-- An address: the bytes of an IPv4 address, or the sixteen of an IPv6 address.
pub data Ip : Type 0 where
  v4 : ℕ → ℕ → ℕ → ℕ → Ip
  v6 : List ℕ → Ip

abbrev pub all_zero : List ℕ → Bool
all_zero [] = true
all_zero (b ∷ l) = b == 0 && all_zero l

-- zeros, and 1 as the last byte
abbrev pub is_one : List ℕ → Bool
is_one [] = false
is_one (b ∷ []) = b == 1
is_one (b ∷ c ∷ l) = b == 0 && is_one (c ∷ l)

unfoldable pub is_loopback : Ip → Bool
is_loopback (v4 a b c d) = a == 127
is_loopback (v6 l) = is_one l

-- 10/8, 172.16/12, 192.168/16, fc00::/7
unfoldable pub is_private : Ip → Bool
is_private (v4 a b c d) = a == 10 || (a == 172 && b / 16 == 1) || (a == 192 && b == 168)
is_private (v6 []) = false
is_private (v6 (a ∷ l)) = a / 2 == 126

-- 169.254/16, fe80::/10
unfoldable pub is_link_local : Ip → Bool
is_link_local (v4 a b c d) = a == 169 && b == 254
is_link_local (v6 (a ∷ b ∷ l)) = a == 254 && b / 64 == 2
is_link_local (v6 _) = false

unfoldable pub is_lan : Ip → Bool
unfolding is_loopback is_private is_link_local
is_lan ip = is_loopback ip || is_private ip || is_link_local ip

unfoldable pub all_lan : List Ip → Bool
unfolding is_lan
all_lan [] = true
all_lan (ip ∷ l) = is_lan ip && all_lan l

abbrev pub is_wildcard : Text → Bool
is_wildcard host = is_nil host || text_eq host (codes "0.0.0.0") || text_eq host (codes "::")

module _ (parse_ip : Text → Option Ip) (lookup_ip : Text → Result (List Ip)) where
  unfoldable pub resolve_all : Text → Result (List Ip)
  resolve_all host = elim (parse_ip host) [ some ip ↦ ok (ip ∷ []) | none ↦ lookup_ip host ]

  unfoldable pub check_lan_bind : Text → Result (Unit {0})
  unfolding split_host_port resolve_all all_lan
  check_lan_bind listen = elim (split_host_port listen) [
    | none ↦ err (fail "listen")
    | some (host, port) ↦
        if is_nil port
        then err (fail "empty port")
        else if is_wildcard host
        then err (fail "wildcard bind is not allowed")
        else elim (resolve_all host) [
          | err e ↦ err (fail "resolve host")
          | ok ips ↦
              if is_nil ips
              then err (fail "host resolved to no addresses")
              else if all_lan ips
              then ok tt
              else err (fail "not a LAN address")
        ]
  ]
