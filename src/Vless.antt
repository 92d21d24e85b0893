-- ===== src/Vless.antt =====
-- internal/vless/vless.go: the connection URL of a client. The escapes are those of net/url.
pub mod Escapes
pub mod Query
pub mod Reader
pub mod Link
use flint2_xray_web_console.Base.{
  ℕ, ◌+◌, ◌-◌, ◌*◌, ◌/◌, ◌%◌, Bool, true, false, Option, none, some, List, [], ◌∷◌, ◌++◌, Text,
  codes, Result, ok, err, fail, if◌then◌else◌, is_nil, leb, ltb, ◌==◌, ◌||◌, ◌&&◌, not,
}
use flint2_xray_web_console.Base.Int.{ℤ, pos, negsuc}
use flint2_xray_web_console.Json.Map.{Map, insert}
use flint2_xray_web_console.Base.HostPort.{contains_byte}

pub record Params : Type 0 where
  pub uuid : Text
  pub host : Text
  pub port : ℤ
  pub flow : Text
  pub name : Text
  pub network : Text
  pub sni : Text
  pub fingerprint : Text
  pub public_key : Text
  pub short_id : Text
  pub spider_x : Text

-- letters, digits, and - _ . ~
abbrev pub is_unreserved : ℕ → Bool
is_unreserved c =
    (leb 97 c && leb c 122)
    || (leb 65 c && leb c 90)
    || (leb 48 c && leb c 57)
    || c == 45
    || c == 95
    || c == 46
    || c == 126

-- these too stay in a path segment: $ & + : = @
abbrev pub is_path_byte : ℕ → Bool
is_path_byte c = is_unreserved c || c == 36 || c == 38 || c == 43 || c == 58 || c == 61 || c == 64

abbrev pub hex : ℕ → ℕ
hex n = if ltb n 10 then 48 + n else 55 + n

abbrev pub percent : ℕ → Text
percent c = 37 ∷ hex (c / 16) ∷ hex (c % 16) ∷ []

abbrev pub escape_path_byte : ℕ → Text
escape_path_byte c = if is_path_byte c then c ∷ [] else percent c

-- a space becomes a plus sign
abbrev pub escape_query_byte : ℕ → Text
escape_query_byte c = if c == 32 then 43 ∷ [] else if is_unreserved c then c ∷ [] else percent c

-- `url.PathEscape`
unfoldable pub path_escape : Text → Text
path_escape [] = []
path_escape (c ∷ s) = escape_path_byte c ++ path_escape s

-- `url.QueryEscape`
unfoldable pub query_escape : Text → Text
query_escape [] = []
query_escape (c ∷ s) = escape_query_byte c ++ query_escape s

abbrev pub pair : Text → Text → Text
pair k v = query_escape k ++ (61 ∷ query_escape v)

-- `Values.Encode`, of values by key
unfoldable pub encode : Map Text → Text
encode [] = []
encode ((k, v) ∷ []) = pair k v
encode ((k, v) ∷ e ∷ m) = pair k v ++ (38 ∷ encode (e ∷ m))

-- `q.Set` of a field that is not empty
unfoldable pub set_some : Text → Text → Map Text → Map Text
unfolding insert
set_some key v q = if is_nil v then q else insert key v q

abbrev pub network_of : Text → Text
network_of s = if is_nil s then codes "tcp" else s

-- the values that `BuildURL` sets, in its order
unfoldable pub query_values : Params → Map Text
unfolding set_some
query_values p = set_some (codes "spx") p.spider_x (
    set_some (codes "sid") p.short_id (
      insert (codes "pbk") p.public_key (
        set_some (codes "fp") p.fingerprint (
          set_some (codes "sni") p.sni (
            set_some (codes "flow") p.flow (
              insert (codes "type") (network_of p.network) (
                insert (codes "security") (codes "reality")
                  (insert (codes "encryption") (codes "none") []))))))))

abbrev pub digit : ℕ → ℕ
digit n = 48 + n % 10

-- `strconv.Itoa` of a port
unfoldable pub itoa_port : ℕ → Text
itoa_port n =
    if ltb n 10
    then digit n ∷ []
    else if ltb n 100
    then digit (n / 10) ∷ digit n ∷ []
    else if ltb n 1000
    then digit (n / 100) ∷ digit (n / 10) ∷ digit n ∷ []
    else if ltb n 10000
    then digit (n / 1000) ∷ digit (n / 100) ∷ digit (n / 10) ∷ digit n ∷ []
    else digit (n / 10000) ∷ digit (n / 1000) ∷ digit (n / 100) ∷ digit (n / 10) ∷ digit n ∷ []

-- `net.JoinHostPort`
unfoldable pub join_host_port : Text → Text → Text
unfolding contains_byte
join_host_port host port =
    if contains_byte 58 host then 91 ∷ (host ++ (93 ∷ 58 ∷ port)) else host ++ (58 ∷ port)

abbrev pub fragment : Text → Text
fragment name = if is_nil name then [] else 35 ∷ path_escape name

-- the URL of checked parameters
unfoldable pub url_of : Params → ℕ → Text
unfolding join_host_port itoa_port path_escape encode query_values
url_of p port =
    codes "vless://"
    ++ (path_escape p.uuid
        ++ (64
            ∷ (join_host_port p.host (itoa_port port)
                ++ (63 ∷ (encode (query_values p) ++ fragment p.name)))))

-- a port from 1 to 65535
abbrev pub port_of : ℤ → Option ℕ
port_of (pos n) = if n == 0 || ltb 65535 n then none else some n
port_of (negsuc n) = none

unfoldable pub build_url : Params → Result Text
unfolding url_of
build_url p =
    if is_nil p.uuid
    then err (fail "uuid is required")
    else if is_nil p.host
    then err (fail "host is required")
    else elim (port_of p.port) [
      | none ↦ err (fail "port out of range")
      | some port ↦
          if is_nil p.public_key then err (fail "public key is required") else ok (url_of p port)
    ]
