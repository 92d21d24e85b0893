-- ===== src/Xray/Stats.antt =====
-- internal/xray/stats.go: what `xray api` prints about the users, and the calls that ask for it. A
-- Go map is emitted in the order of its keys, where the source leaves the order open.
pub mod Names
pub mod Totals
pub mod Online
pub mod Query
use flint2_xray_web_console.Json.Decode.{decode_map}
use flint2_xray_web_console.Base.{
  ℕ, ◌+◌, Bool, true, false, Option, none, some, List, [], ◌∷◌, ◌++◌, map, Text, codes, text_eq, ok,
  err, fail, if◌then◌else◌, is_nil, ltb, leb, ◌==◌, ◌||◌, ◌&&◌, not, ◌^◌, ◌≤◌, wrap_err, length,
  suc, zero,
}
use flint2_xray_web_console.Base.Int.{ℤ, pos, negsuc}
use flint2_xray_web_console.Base.Decimal.{parse_int, ◌+ℤ◌}
use flint2_xray_web_console.Base.Errors.{Result, ◌>>=◌}
use flint2_xray_web_console.Base.Strings.{trim_space, has_prefix}
use flint2_xray_web_console.Exec.{Exec, pure, raise, lift}
use flint2_xray_web_console.Os.{Env, World, Output, exit_ok, run}
use flint2_xray_web_console.Json.{Json, null, int, frac, str, arr, obj, from_items, from_members}
use flint2_xray_web_console.Json.Decode.{
  field, read_field, decode_text, decode_list, decode_raw, not_object,
}
use flint2_xray_web_console.Json.Map.{Map, lookup, insert}

pub record UserStats : Type 0 where
  pub email : Text
  pub uplink : ℤ
  pub downlink : ℤ

pub record OnlineUser : Type 0 where
  pub email : Text
  pub sessions : ℤ

pub record StatEntry : Type 0 where
  pub name : Text
  pub value : Json

pub record StatsClient : Type 0 where
  pub xray_bin : Text
  pub server : Text

-- The parts of `encoding/json` that read bytes and floating-point numbers: the document in some
-- bytes, if they are one, and `int64` of the `float64` next to a number.
pub record Reader : Type 0 where
  pub parse : Text → Option Json
  pub float_to_int : Json → ℤ

-- the separator `>>>`
abbrev pub sep : Text
sep = codes ">>>"

-- put a byte before the first part
abbrev pub onto_first : ℕ → List Text → List Text
onto_first c [] = (c ∷ []) ∷ []
onto_first c (p ∷ ps) = (c ∷ p) ∷ ps

-- The parts between the separators, after so many bytes that belong to one.
unfoldable pub split_from : ℕ → Text → List Text
unfolding has_prefix
split_from k [] = [] ∷ []
split_from (suc k) (c ∷ s) = split_from k s
split_from zero (c ∷ s) =
    let cut = has_prefix (c ∷ s) sep in
    let rest = split_from (if cut then 2 else 0) s in if cut then [] ∷ rest else onto_first c rest

-- `strings.Split(s, ">>>")`
unfoldable pub split : Text → List Text
unfolding split_from
split s = split_from 0 s

-- the email and the direction
unfoldable pub parse_user_stat_name : Text → Option (Text × Text)
unfolding split text_eq
parse_user_stat_name name = elim (split name) [
  | a ∷ email ∷ b ∷ direction ∷ [] ↦
      if not (text_eq a (codes "user")) || not (text_eq b (codes "traffic"))
      then none
      else some (email, direction)
  | _ ↦ none
]

-- empty where the name has another form
unfoldable pub extract_online_email : Text → Text
unfolding split text_eq
extract_online_email s = elim (split s) [
  | a ∷ email ∷ rest ↦ if not (text_eq a (codes "user")) then [] else email
  | _ ↦ []
]

-- integers of at most 53 bits: a `float64` holds each of them
unfoldable pub is_exact : ℤ → Bool
is_exact (pos n) = leb n (2 ^ 53)
is_exact (negsuc n) = ltb n (2 ^ 53)

-- the user's totals, zero at first
unfoldable pub totals_of : Text → Map UserStats → UserStats
totals_of email m = elim (lookup email m) [
  | none ↦ record { email = email; uplink = pos 0; downlink = pos 0 }
  | some u ↦ u
]

unfoldable pub set_direction : Text → ℤ → UserStats → UserStats
unfolding text_eq
set_direction direction val u =
    if text_eq direction (codes "uplink")
    then record u { uplink = val }
    else if text_eq direction (codes "downlink")
    then record u { downlink = val }
    else u

module _ (rd : Reader) where
  -- `coerceInt`; `json.Unmarshal` makes no `json.Number` here
  unfoldable pub coerce_int : Json → ℤ
  unfolding parse_int is_exact
  coerce_int (str s) = parse_int s
  coerce_int (int z) = if is_exact z then z else rd.float_to_int (int z)
  coerce_int (frac s) = rd.float_to_int (frac s)
  coerce_int _ = pos 0

  -- one entry of the loop of `parseStats`
  unfoldable pub add_entry : StatEntry → Map UserStats → Map UserStats
  unfolding parse_user_stat_name totals_of set_direction
  add_entry e m = elim (parse_user_stat_name e.name) [
    | none ↦ m
    | some (email, direction) ↦
        insert email (set_direction direction (coerce_int e.value) (totals_of email m)) m
  ]

  unfoldable pub by_email : List StatEntry → Map UserStats → Map UserStats
  unfolding add_entry
  by_email [] m = m
  by_email (e ∷ es) m = by_email es (add_entry e m)

abbrev pub values {ℓ} : {A : Type ℓ} → Map A → List A
values [] = []
values ((k, v) ∷ m) = v ∷ values m

unfoldable pub decode_stat_entry : Json → Result StatEntry
decode_stat_entry null = ok (record { name = []; value = null })
decode_stat_entry (obj ms) = do
  name ← read_field [] decode_text (field (codes "name") (from_members ms))
  value ← read_field null decode_raw (field (codes "value") (from_members ms))
  ok (record { name = name; value = value })
decode_stat_entry _ = not_object

-- `stat`, or `statistics` where that is empty
unfoldable pub stat_entries : Json → Result (List StatEntry)
unfolding decode_stat_entry
stat_entries null = ok []
stat_entries (obj ms) = do
  stat ← read_field [] (decode_list decode_stat_entry) (field (codes "stat") (from_members ms))
  statistics ←
      read_field [] (decode_list decode_stat_entry) (field (codes "statistics") (from_members ms))
  ok (if is_nil stat then statistics else stat)
stat_entries _ = not_object

module _ (rd : Reader) where
  unfoldable pub parse_stats : Text → Result (List UserStats)
  unfolding trim_space stat_entries by_email
  parse_stats raw =
      let trimmed = trim_space raw in
      if is_nil trimmed then ok [] else elim (rd.parse trimmed) [
        | none ↦ err (fail "parse stats json")
        | some j ↦ do
          entries ← wrap_err "parse stats json" (stat_entries j)
          ok (values (by_email rd entries []))
      ]
