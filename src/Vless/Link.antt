-- ===== src/Vless/Link.antt =====
-- The whole connection URL.
use flint2_xray_web_console.Vless.Reader.{IsHost, read_link, read_link-parts}
use flint2_xray_web_console.Base.Int.{ℤ, pos, negsuc}
use flint2_xray_web_console.Base.{
  Option, none, or_else, if◌then◌else◌, ◌≤◌, ap, ◌≡◌, ok, some, [], ◌∷◌, Text, codes, refl, arith,
  is_nil, false, text_eq, ℕ, Option-cases, ◌∙◌, sym, inl, inr,
}
use flint2_xray_web_console.Json.Map.{Map, lookup, insert, lookup-insert}
use flint2_xray_web_console.Vless.{
  Params, build_url, url_of, port_of, query_values, join_host_port, itoa_port, set_some, network_of,
}
use flint2_xray_web_console.Vless.Escapes.{IsBytes}
use flint2_xray_web_console.Vless.Query.{AreBytes}

-- The texts of the parameters are of bytes, and the host has no `#`, `?` or `@`.
pub record IsText (p : Params) : Type 0 where
  pub uuid : IsBytes p.uuid
  pub host : IsHost p.host
  pub flow : IsBytes p.flow
  pub name : IsBytes p.name
  pub network : IsBytes p.network
  pub sni : IsBytes p.sni
  pub fingerprint : IsBytes p.fingerprint
  pub public_key : IsBytes p.public_key
  pub short_id : IsBytes p.short_id
  pub spider_x : IsBytes p.spider_x

insert-AreBytes :
    (k v : Text) (m : Map Text) → IsBytes k → IsBytes v → AreBytes m → AreBytes (insert k v m)
unfolding insert
insert-AreBytes k v [] hk hv h = ((hk, hv), tt)
insert-AreBytes k v ((j, w) ∷ m) hk hv h =
    let rest = insert-AreBytes k v m hk hv h.1 in ground arith

set_some-AreBytes :
    (k v : Text) (m : Map Text) → IsBytes k → IsBytes v → AreBytes m → AreBytes (set_some k v m)
unfolding set_some
set_some-AreBytes k [] m hk hv h = h
set_some-AreBytes k (c ∷ v) m hk hv h = insert-AreBytes k (c ∷ v) m hk hv h

insert-some : (k v : Text) (m : Map Text) → is_nil (insert k v m) ≡ false
unfolding insert
insert-some k v [] = refl
insert-some k v ((j, w) ∷ m) = ground arith

set_some-some : (k v : Text) (m : Map Text) → is_nil m ≡ false → is_nil (set_some k v m) ≡ false
unfolding set_some
set_some-some k [] m h = h
set_some-some k (c ∷ v) m h = insert-some k (c ∷ v) m

lookup-set_some :
    (k j v : Text) (m : Map Text) → text_eq k j ≡ false → lookup j (set_some k v m) ≡ lookup j m
unfolding set_some
lookup-set_some k j [] m h = refl
lookup-set_some k j (c ∷ v) m h = rw (lookup-insert k j (c ∷ v) m, h) refl

network-IsBytes : (s : Text) → IsBytes s → IsBytes (network_of s)
network-IsBytes [] h = omega arith
network-IsBytes (c ∷ s) h = h

-- the values in the order in which they are set
abbrev fixed : Params → Map Text
fixed p =
    insert (codes "type") (network_of p.network)
      (insert (codes "security") (codes "reality") (insert (codes "encryption") (codes "none") []))

abbrev with_flow : Params → Map Text
with_flow p = set_some (codes "flow") p.flow (fixed p)

abbrev with_sni : Params → Map Text
with_sni p = set_some (codes "sni") p.sni (with_flow p)

abbrev with_fingerprint : Params → Map Text
with_fingerprint p = set_some (codes "fp") p.fingerprint (with_sni p)

abbrev with_key : Params → Map Text
with_key p = insert (codes "pbk") p.public_key (with_fingerprint p)

abbrev with_short_id : Params → Map Text
with_short_id p = set_some (codes "sid") p.short_id (with_key p)

fixed-AreBytes : (p : Params) → IsText p → AreBytes (fixed p)
fixed-AreBytes p h =
    insert-AreBytes (codes "type") (network_of p.network)
      (insert (codes "security") (codes "reality") (insert (codes "encryption") (codes "none") []))
      (omega arith) (network-IsBytes p.network h.network)
      (insert-AreBytes (codes "security") (codes "reality")
        (insert (codes "encryption") (codes "none") []) (omega arith) (omega arith)
        (insert-AreBytes (codes "encryption") (codes "none") [] (omega arith) (omega arith) tt))

query_values-AreBytes : (p : Params) → IsText p → AreBytes (query_values p)
unfolding query_values
query_values-AreBytes p h =
    let flow =
      set_some-AreBytes (codes "flow") p.flow (fixed p) (omega arith) h.flow (fixed-AreBytes p h) in
    let sni = set_some-AreBytes (codes "sni") p.sni (with_flow p) (omega arith) h.sni flow in
    let fp =
      set_some-AreBytes (codes "fp") p.fingerprint (with_sni p) (omega arith) h.fingerprint sni in
    let pbk =
      insert-AreBytes (codes "pbk") p.public_key (with_fingerprint p) (omega arith) h.public_key
        fp in
    let sid =
      set_some-AreBytes (codes "sid") p.short_id (with_key p) (omega arith) h.short_id pbk in
    set_some-AreBytes (codes "spx") p.spider_x (with_short_id p) (omega arith) h.spider_x sid

query_values-some : (p : Params) → is_nil (query_values p) ≡ false
unfolding query_values
query_values-some p = set_some-some (codes "spx") p.spider_x (with_short_id p) (
    set_some-some (codes "sid") p.short_id (with_key p)
      (insert-some (codes "pbk") p.public_key (with_fingerprint p)))

-- a text that is left out if it is empty
abbrev pub given : Text → Option Text
given [] = none
given (c ∷ s) = some (c ∷ s)

lookup-given :
    (k j v : Text) (m : Map Text)
    → lookup j (set_some k v m)
      ≡ (if text_eq k j then or_else (given v) (lookup j m) else lookup j m)
unfolding set_some
lookup-given k j [] m = ground arith
lookup-given k j (c ∷ v) m = ground (arith, lookup-insert k j (c ∷ v) m)

or_none : (v : Text) → or_else (given v) none ≡ given v
or_none [] = refl
or_none (c ∷ v) = refl

-- The query says how to connect: plain VLESS over Reality, on the network, which is tcp where none
-- is given, and each other parameter under its key, where it is not empty.
pub record Says (p : Params) (m : Map Text) : Type 0 where
  pub encryption : lookup (codes "encryption") m ≡ some (codes "none")
  pub security : lookup (codes "security") m ≡ some (codes "reality")
  pub network : lookup (codes "type") m ≡ some (if is_nil p.network then codes "tcp" else p.network)
  pub flow : lookup (codes "flow") m ≡ given p.flow
  pub sni : lookup (codes "sni") m ≡ given p.sni
  pub fingerprint : lookup (codes "fp") m ≡ given p.fingerprint
  pub public_key : lookup (codes "pbk") m ≡ some p.public_key
  pub short_id : lookup (codes "sid") m ≡ given p.short_id
  pub spider_x : lookup (codes "spx") m ≡ given p.spider_x

says : (p : Params) → Says p (query_values p)
unfolding query_values text_eq lookup
says p = record {
  encryption = simp (lookup-given, lookup-insert) refl;
  security = simp (lookup-given, lookup-insert) refl;
  network = simp (lookup-given, lookup-insert) refl;
  flow = simp (lookup-given, lookup-insert, or_none) refl;
  sni = simp (lookup-given, lookup-insert, or_none) refl;
  fingerprint = simp (lookup-given, lookup-insert, or_none) refl;
  public_key = simp (lookup-given, lookup-insert) refl;
  short_id = simp (lookup-given, lookup-insert, or_none) refl;
  spider_x = simp (lookup-given, lookup-insert, or_none) refl;
}

in_range : (z : ℤ) (port : ℕ) → port_of z ≡ some port → (z ≡ pos port) × (1 ≤ port) × (port ≤ 65535)
in_range (pos n) port h = ground arith
in_range (negsuc n) port h = absurd (ground arith)

-- what `BuildURL` returns, where it returns a URL
built :
    (p : Params) (u : Text)
    → build_url p ≡ ok u
    → (port : ℕ) × (port_of p.port ≡ some port) × (url_of p port ≡ u)
unfolding build_url
built p u made = elim (Option-cases (port_of p.port)) [
  | inl out ↦ absurd (ground (arith, out))
  | inr (port, within) ↦ (port, within, ground (arith, within))
]

-- Where the texts are of bytes and the host has no #, ? or @: a URL that BuildURL returns is read
-- back, by a reader of URLs, as the UUID, the authority made of the host and a port from 1 to
-- 65535, the name, and a query that says: plain VLESS over Reality, the network or tcp, the public
-- key, and the flow, SNI, fingerprint, short ID and spider path where they are not empty, and only
-- there.
pub build_url_lem :
    (p : Params) (u : Text)
    → IsText p
    → build_url p ≡ ok u
    → (port : ℕ) × (m : Map Text) × (p.port ≡ pos port)
      × (1 ≤ port)
      × (port ≤ 65535)
      × (read_link u
          ≡ some (record {
            uuid = p.uuid;
            authority = join_host_port p.host (itoa_port port);
            values = m;
            name = p.name;
          }))
      × Says p m
build_url_lem p u h made =
    let (port, within, e) = built p u made in
    let (is_port, low, high) = in_range p.port port within in
    (
      port,
      query_values p,
      is_port,
      low,
      high,
      ap read_link (sym e)
          ∙ (unfold url_of in
              read_link-parts p.uuid p.host p.name port (query_values p) h.uuid h.name h.host
                (omega (arith, high)) (query_values-some p) (query_values-AreBytes p h)),
      says p,
    )
