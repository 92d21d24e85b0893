-- ===== src/Panel/Auth.antt =====
-- internal/http/auth.go: the basic authentication and its cache. SHA-256, in hex, and the
-- comparison with the bcrypt hash are parameters; times are in milliseconds.
pub mod Decisions
use flint2_xray_web_console.Base.{
  ℕ, ◌+◌, Bool, true, false, Option, none, some, List, [], ◌∷◌, ◌++◌, Text, text_eq, if◌then◌else◌,
  ltb, not, length,
}
use flint2_xray_web_console.Json.Map.{Map, lookup, insert}

-- `authCache`: when an entry expires, by its key
abbrev pub AuthCache : Type 0
AuthCache = Map ℕ

-- `authCacheTTL`: 5 minutes
abbrev pub cache_ttl : ℕ
cache_ttl = 300000

abbrev pub new_auth_cache : AuthCache
new_auth_cache = []

-- the entries that have not expired
unfoldable pub trim_expired : ℕ → AuthCache → AuthCache
trim_expired now [] = []
trim_expired now ((k, exp) ∷ m) =
    let rest = trim_expired now m in if ltb exp now then rest else (k, exp) ∷ rest

-- A request: its credentials, if it has any, and the times that the clock shows when it is served.
pub record Request : Type 0 where
  pub credentials : Option (Text × Text)
  pub at : ℕ
  pub later : ℕ
  pub last : ℕ

module _ (sha : Text → Text) where
  unfoldable pub cache_key : Text → Text → Text
  cache_key user pass = sha (user ++ (0 ∷ pass))

  unfoldable pub hit : ℕ → Text → Text → AuthCache → Bool
  unfolding cache_key lookup
  hit now user pass m = elim (lookup (cache_key user pass) m) [
    | none ↦ false
    | some exp ↦ ltb now exp
  ]

  unfoldable pub admit : ℕ → ℕ → Text → Text → AuthCache → AuthCache
  unfolding cache_key insert trim_expired
  admit now later user pass m =
      let m' = insert (cache_key user pass) (now + cache_ttl) m in
      if ltb 32 (length m') then trim_expired later m' else m'

  -- `BasicAuth`: is the request handed on, and the cache after it
  unfoldable pub basic_auth : (Text → Bool) → Text → Request → AuthCache → Bool × AuthCache
  unfolding text_eq hit admit
  basic_auth matches user r m = elim r.credentials [
    | none ↦ (false, m)
    | some (u, p) ↦
        if not (text_eq u user)
        then (false, m)
        else if hit r.at u p m
        then (true, m)
        else if not (matches p)
        then (false, m)
        else (true, admit r.later r.last u p m)
  ]

  -- the answers to requests, one after the other
  unfoldable pub answers : (Text → Bool) → Text → List Request → AuthCache → List Bool
  unfolding basic_auth
  answers matches user [] m = []
  answers matches user (r ∷ rs) m =
      let (served, m') = basic_auth matches user r m in served ∷ answers matches user rs m'
