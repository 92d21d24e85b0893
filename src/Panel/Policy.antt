-- ===== src/Panel/Policy.antt =====
-- The policy block of the config in internal/http/server_admin.go: `mergeOnlineFlag` and
-- `policyHasOnlineFlag`.
pub mod Merge
use flint2_xray_web_console.Base.{
  Bool, true, false, Option, none, some, List, [], ◌∷◌, Text, codes, Result, ok, err, Error, fail,
  wrap_err, if◌then◌else◌,
}
use flint2_xray_web_console.Base.Errors.{◌>>=◌}
use flint2_xray_web_console.Json.{Json, null, obj, bool, from_members, to_members}
use flint2_xray_web_console.Json.Map.{Map, lookup, insert, from_entries}
use flint2_xray_web_console.Json.Decode.{decode_bool, decode_map}

-- the map under a key of the parent map; an empty one if the key is missing
unfoldable pub child : Text → Option (Map Json) → Result (Option (Map Json))
unfolding decode_map
child key none = ok (some [])
child key (some m) = elim (lookup key m) [ none ↦ ok (some []) | some v ↦ decode_map v ]

-- Does the member stand for `true`?
unfoldable pub is_true : Option Json → Bool
is_true none = false
is_true (some v) = elim (decode_bool v) [ ok b ↦ b | err e ↦ false ]

unfoldable pub online : Option (Map Json) → Bool
unfolding is_true
online none = false
online (some m) = is_true (lookup (codes "statsUserOnline") m)

-- `policyHasOnlineFlag` on a policy that is there
unfoldable pub level_zero : Json → Result (Option (Map Json))
unfolding child
level_zero v = do
  root ← decode_map v
  levels ← child (codes "levels") root
  child (codes "0") levels

unfoldable pub policy_has_online_flag : Option Json → Bool
unfolding level_zero online
policy_has_online_flag none = false
policy_has_online_flag (some v) = elim (level_zero v) [ err e ↦ false | ok m ↦ online m ]

-- How `mergeOnlineFlag` ends; a write to a nil map panics.
pub data Merged : Type 0 where
  panics : Merged
  failed : Error → Merged
  unchanged : Merged
  changed : Json → Merged

-- a JSON object of these members
abbrev pub object : Map Json → Json
object m = obj (to_members m)

unfoldable pub set_flag : Option (Map Json) → Option (Map Json) → Option (Map Json) → Merged
set_flag (some root) (some levels) (some level0) = changed (
    object (
      insert (codes "levels")
        (object (
          insert (codes "0") (object (insert (codes "statsUserOnline") (bool true) level0)) levels))
        root))
set_flag _ _ _ = panics

unfoldable pub merge_online_flag : Option Json → Merged
unfolding child online set_flag
merge_online_flag none = changed (
    object (
      (
        codes "levels",
        object ((codes "0", object ((codes "statsUserOnline", bool true) ∷ [])) ∷ []),
      )
      ∷ []))
merge_online_flag (some v) = elim (wrap_err "parse policy" (decode_map v)) [
  | err e ↦ failed e
  | ok root ↦ elim (wrap_err "parse policy.levels" (child (codes "levels") root)) [
    | err e ↦ failed e
    | ok levels ↦ elim (wrap_err "parse policy.levels.0" (child (codes "0") levels)) [
      | err e ↦ failed e
      | ok level0 ↦ if online level0 then unchanged else set_flag root levels level0
    ]
  ]
]
