-- ===== src/Xray/Stats/Online.antt =====
-- `parseOnlineUsers` of internal/xray/stats.go: the shapes in which `xray api
-- statsgetallonlineusers` prints who is online.
use flint2_xray_web_console.Base.{
  ℕ, ◌+◌, Option, none, some, List, [], ◌∷◌, Text, codes, text_eq, ok, err, fail, if◌then◌else◌,
  is_nil, ◌==◌, wrap_err, length, ◌||◌,
}
use flint2_xray_web_console.Base.Int.{pos}
use flint2_xray_web_console.Base.Errors.{Result, ◌>>=◌}
use flint2_xray_web_console.Base.Strings.{trim_space}
use flint2_xray_web_console.Json.{Json, null, obj, from_members}
use flint2_xray_web_console.Json.Decode.{
  field, read_field, decode_text, decode_list, decode_raw, decode_map, not_object,
}
use flint2_xray_web_console.Json.Map.{Map, lookup}
use flint2_xray_web_console.Xray.Stats.{Reader, OnlineUser, coerce_int, extract_online_email}

-- an element of the array of rows
pub record OnlineRow : Type 0 where
  pub email : Text
  pub count : Json

unfoldable pub decode_online_row : Json → Result OnlineRow
decode_online_row null = ok (record { email = []; count = null })
decode_online_row (obj ms) = do
  email ← read_field [] decode_text (field (codes "email") (from_members ms))
  count ← read_field null decode_raw (field (codes "count") (from_members ms))
  ok (record { email = email; count = count })
decode_online_row _ = not_object

-- One session more for this user; the users stay in the order in which they came.
unfoldable pub count_session : Text → List (Text × ℕ) → List (Text × ℕ)
unfolding text_eq
count_session email [] = (email, 1) ∷ []
count_session email ((e, n) ∷ l) =
    let rest = count_session email l in if text_eq e email then (e, n + 1) ∷ l else (e, n) ∷ rest

unfoldable pub count_sessions : List Text → List (Text × ℕ) → List (Text × ℕ)
unfolding extract_online_email count_session
count_sessions [] counts = counts
count_sessions (s ∷ l) counts =
    let email = extract_online_email s in
    count_sessions l (if is_nil email then counts else count_session email counts)

abbrev from_counts : List (Text × ℕ) → List OnlineUser
from_counts [] = []
from_counts ((email, n) ∷ l) = record { email = email; sessions = pos n } ∷ from_counts l

-- `strs`: the counted users of an array of strings
unfoldable pub online_of_strings : List Text → List OnlineUser
unfolding count_sessions
online_of_strings l = from_counts (count_sessions l [])

module _ (rd : Reader) where
  unfoldable pub build_online_from_map : Map Json → List OnlineUser
  unfolding coerce_int
  build_online_from_map [] = []
  build_online_from_map ((email, v) ∷ m) =
      record { email = email; sessions = coerce_int rd v } ∷ build_online_from_map m

  unfoldable pub online_of_rows : List OnlineRow → List OnlineUser
  unfolding coerce_int
  online_of_rows [] = []
  online_of_rows (r ∷ l) =
      let rest = online_of_rows l in
      if is_nil r.email
      then rest
      else record { email = r.email; sessions = coerce_int rd r.count } ∷ rest

  abbrev pub entries_of : Option (Map Json) → Map Json
  entries_of none = []
  entries_of (some m) = m

  -- the value of a sole `users` member
  unfoldable pub online_of_users : Json → Result (List OnlineUser)
  unfolding build_online_from_map online_of_strings online_of_rows decode_online_row
  online_of_users inner = elim (decode_map inner) [
    | ok m ↦ ok (build_online_from_map (entries_of m))
    | err _ ↦ elim (decode_list decode_text inner) [
      | ok strs ↦ ok (online_of_strings strs)
      | err _ ↦ elim (decode_list decode_online_row inner) [
        | ok rows ↦ ok (online_of_rows rows)
        | err _ ↦ err (fail "parse online users json: unrecognised 'users' shape")
      ]
    ]
  ]

  -- the sole member, if it is `users`
  unfoldable pub sole_users : Map Json → Option Json
  unfolding lookup
  sole_users m = if length m == 1 then lookup (codes "users") m else none

  unfoldable pub parse_online_users : Text → Result (List OnlineUser)
  unfolding trim_space text_eq sole_users online_of_users
  parse_online_users raw =
      let trimmed = trim_space raw in
      if is_nil trimmed || text_eq trimmed (codes "{}") then ok [] else elim (rd.parse trimmed) [
        | none ↦ err (fail "parse online users json")
        | some j ↦ do
          probe ← wrap_err "parse online users json" (decode_map j)
          elim (sole_users (entries_of probe)) [
            | some inner ↦ online_of_users inner
            | none ↦ ok (build_online_from_map (entries_of probe))
          ]
      ]
