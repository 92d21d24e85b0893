-- ===== src/Json/Extra.antt =====
-- `collectExtra` and `mergeExtra` of internal/xray/config.go: known fields of a struct beside a
-- bag of all the others.
pub mod Bag
use flint2_xray_web_console.Base.{
  Bool, true, false, Option, none, some, List, [], ◌∷◌, Text, text_eq, if◌then◌else◌, is_nil, ◌||◌,
}
use flint2_xray_web_console.Json.{Json, obj, from_members, to_members}
use flint2_xray_web_console.Json.Map.{Map, insert, has, from_entries}

-- `_, ok := known[k]`
unfoldable pub contains : List Text → Text → Bool
contains [] k = false
contains (j ∷ r) k = text_eq j k || contains r k

-- `for k := range all { if known { delete(all, k) } }`
unfoldable pub drop_known : List Text → Map Json → Map Json
unfolding contains
drop_known known [] = []
drop_known known ((k, v) ∷ m) =
    let rest = drop_known known m in if contains known k then rest else (k, v) ∷ rest

-- The nil map and the empty map are one here; both are omitted on the way back.
unfoldable pub collect_extra : Json → List Text → Map Json
unfolding drop_known from_entries
collect_extra (obj ms) known = drop_known known (from_entries (from_members ms))
collect_extra _ known = []

-- `for k, v := range extra { if clash { continue }; asMap[k] = v }`
unfoldable pub splice : Map Json → Map Json → Map Json
unfolding has insert
splice [] as_map = as_map
splice ((k, v) ∷ extra) as_map = splice extra (if has k as_map then as_map else insert k v as_map)

-- The fields of a struct in declaration order; `none` is one that `omitempty` leaves out.
abbrev pub Slots : Type 0
Slots = List (Text × Option Json)

unfoldable pub present : Slots → List (Text × Json)
present [] = []
present ((k, none) ∷ r) = present r
present ((k, some v) ∷ r) = (k, v) ∷ present r

-- Without extra fields the struct's own order stays; with some, the keys come out sorted.
unfoldable pub merge_entries : Map Json → Slots → List (Text × Json)
unfolding splice from_entries present
merge_entries extra slots =
    if is_nil extra then present slots else splice extra (from_entries (present slots))

unfoldable pub merge_extra : Map Json → Slots → Json
unfolding merge_entries
merge_extra extra slots = obj (to_members (merge_entries extra slots))
