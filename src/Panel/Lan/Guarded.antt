-- ===== src/Panel/Lan/Guarded.antt =====
-- What CheckLANBind lets through.
use flint2_xray_web_console.Base.{
  ◌≡◌, ◌↔◌, ◌⊎◌, ◌≤◌, true, List, [], ◌∷◌, All, arith, Option, some, is_nil, Option-cases, false,
  inl, inr,
}
use flint2_xray_web_console.Panel.Lan.{
  resolve_all, Ip, v4, v6, is_one, is_lan, all_lan, check_lan_bind, is_wildcard, resolve_all,
}
use flint2_xray_web_console.Base.Bytes.{Text}
use flint2_xray_web_console.Base.Errors.{Result, ok, Result-cases}
use flint2_xray_web_console.Base.Errors.{Result-cases}
use flint2_xray_web_console.Base.HostPort.{split_host_port}

-- The ranges of RFC 1918, 4193 and 4291, and the loopback and link-local ones.
abbrev pub InLan : Ip → Type 0
InLan (v4 a b c d) =
    (a ≡ 127)
    ⊎ (a ≡ 10)
    ⊎ ((a ≡ 172) × (16 ≤ b) × (b ≤ 31))
    ⊎ ((a ≡ 192) × (b ≡ 168))
    ⊎ ((a ≡ 169) × (b ≡ 254))
InLan (v6 []) = ⊥
InLan (v6 (a ∷ [])) = (a ≡ 1) ⊎ ((252 ≤ a) × (a ≤ 253))
InLan (v6 (a ∷ b ∷ l)) =
    (is_one (a ∷ b ∷ l) ≡ true) ⊎ ((252 ≤ a) × (a ≤ 253)) ⊎ ((a ≡ 254) × (128 ≤ b) × (b ≤ 191))

is_lan-InLan : (ip : Ip) → (is_lan ip ≡ true) ↔ InLan ip
unfolding is_lan
is_lan-InLan (v4 a b c d) = ground arith
is_lan-InLan (v6 []) = ground arith
is_lan-InLan (v6 (a ∷ [])) = ground arith
is_lan-InLan (v6 (a ∷ b ∷ l)) = ground arith

all_lan-All : (l : List Ip) → (all_lan l ≡ true) ↔ All InLan l
unfolding all_lan
all_lan-All [] = ground arith
all_lan-All (ip ∷ l) = ground (arith, is_lan-InLan ip, all_lan-All l)

module _ (parse_ip : Text → Option Ip) (lookup_ip : Text → Result (List Ip)) where
  -- what the check asks of an address to listen on
  abbrev pub MayListen : Text → Type 0
  MayListen listen =
      (host : Text) × (port : Text) × (ips : List Ip) × (split_host_port listen ≡ some (host, port))
      × (is_nil port ≡ false)
      × (is_wildcard host ≡ false)
      × (resolve_all parse_ip lookup_ip host ≡ ok ips)
      × (is_nil ips ≡ false)
      × All InLan ips

  passes : (listen : Text) → check_lan_bind parse_ip lookup_ip listen ≡ ok tt → MayListen listen
  unfolding check_lan_bind
  passes listen h = elim (Option-cases (split_host_port listen)) [
    | inl bad ↦ absurd (ground (arith, bad))
    | inr ((host, port), parts) ↦ elim (Result-cases (resolve_all parse_ip lookup_ip host)) [
      | inl (e, failed) ↦ absurd (ground (arith, parts, failed))
      | inr (ips, found) ↦
          let checked : (is_nil port ≡ false)
              × (is_wildcard host ≡ false)
              × (is_nil ips ≡ false)
              × (all_lan ips ≡ true) =
            ground (arith, parts, found) in
          (
            host,
            port,
            ips,
            parts,
            checked.0,
            checked.1,
            found,
            checked.2,
            (all_lan-All ips).0 checked.3,
          )
    ]
  ]

  fits : (listen : Text) → MayListen listen → check_lan_bind parse_ip lookup_ip listen ≡ ok tt
  unfolding check_lan_bind
  fits listen (host, port, ips, parts, has_port, narrow, found, some_ip, lan) =
      let all = (all_lan-All ips).1 lan in ground (arith, parts, found)

  -- CheckLANBind passes an address to listen on exactly if it has a port and a host other than a
  -- wildcard, and the host stands for at least one address and only for addresses in the ranges of
  -- a LAN.
  pub check_lan_bind_lem :
      (listen : Text) → (check_lan_bind parse_ip lookup_ip listen ≡ ok tt) ↔ MayListen listen
  check_lan_bind_lem listen = (passes listen, fits listen)
