-- ===== src/Panel/Policy/Merge.antt =====
-- What `mergeOnlineFlag` makes of a policy, as `policyHasOnlineFlag` reads it.
use flint2_xray_web_console.Json.Decode.{decode_map}
use flint2_xray_web_console.Base.{
  if◌then◌else◌, ◌≡◌, refl, Bool, true, false, Option, none, some, arith, [], subst, ◌∙◌,
  Option-cases, inl, inr, ◌∷◌,
}
use flint2_xray_web_console.Json.{
  Json, null, obj, from-to_members, bool, from_members, int, frac, str, arr,
}
use flint2_xray_web_console.Panel.Policy.{
  Merged, unchanged, level_zero, set_flag, merge_online_flag, policy_has_online_flag, child, object,
  changed, online,
}
use flint2_xray_web_console.Base.Bytes.{Text, text_eq, codes, text_eq_iff}
use flint2_xray_web_console.Json.Map.{Map, from_entries, lookup, insert, lookup-insert}
use flint2_xray_web_console.Base.Errors.{ok, Result-cases}
use flint2_xray_web_console.Json.Map.Sorted.{
  IsSorted, from_entries-IsSorted, lookup-from_entries_sorted, insert-IsSorted,
}

-- nothing to change
abbrev pub is_unchanged : Merged → Bool
is_unchanged unchanged = true
is_unchanged _ = false

-- `mergeOnlineFlag` finds nothing to change exactly where `policyHasOnlineFlag` finds the flag on.
pub merge_skips : (o : Option Json) → is_unchanged (merge_online_flag o) ≡ policy_has_online_flag o
unfolding merge_online_flag policy_has_online_flag level_zero set_flag
merge_skips none = refl
merge_skips (some v) = ground arith

pub decode_map-object : (m : Map Json) → decode_map (object m) ≡ ok (some (from_entries m))
unfolding decode_map
decode_map-object m = rw (from-to_members m) refl

pub decode_map-IsSorted : (v : Json) (m : Map Json) → decode_map v ≡ ok (some m) → IsSorted m
unfolding decode_map
decode_map-IsSorted (obj ms) m h =
    let e : from_entries (from_members ms) ≡ m = cc in
    subst IsSorted e (from_entries-IsSorted (from_members ms))
decode_map-IsSorted null m h = cc
decode_map-IsSorted (bool b) m h = cc
decode_map-IsSorted (int z) m h = cc
decode_map-IsSorted (frac s) m h = cc
decode_map-IsSorted (str s) m h = cc
decode_map-IsSorted (arr xs) m h = cc

child-IsSorted :
    (key : Text) (o : Option (Map Json)) (m : Map Json) → child key o ≡ ok (some m) → IsSorted m
unfolding child
child-IsSorted key none m h = let e : [] ≡ m = cc in subst IsSorted e tt
child-IsSorted key (some p) m h = elim (Option-cases (lookup key p)) [
  | inl e ↦ let same : [] ≡ m = ground (arith, e) in subst IsSorted same tt
  | inr (v, e) ↦ decode_map-IsSorted v m (rw (child, e) at h)
]

-- a member put into a map, and the map printed and read again
pub lookup-put :
    (k j : Text) (v : Json) (m : Map Json)
    → IsSorted m
    → lookup j (from_entries (insert k v m)) ≡ (if text_eq k j then some v else lookup j m)
lookup-put k j v m s =
    lookup-from_entries_sorted j (insert k v m) (insert-IsSorted k v m s) ∙ lookup-insert k j v m

child-put :
    (k : Text) (v : Json) (m : Map Json)
    → IsSorted m
    → child k (some (from_entries (insert k v m))) ≡ decode_map v
unfolding child
child-put k v m s = ground (arith, lookup-put k k v m s, text_eq_iff k k)

-- A change of one member: the others are as they were.
abbrev pub IsUpdate : Text → Map Json → Map Json → Type 0
IsUpdate k m m' = (j : Text) → lookup j m' ≡ (if text_eq k j then lookup k m' else lookup j m)

-- The policy written: the flag is on, and every other member of the three objects is as it was.
pub record Updated (root levels level0 : Map Json) (w : Json) : Type 0 where
  pub root' : Map Json
  pub levels' : Map Json
  pub level0' : Map Json
  pub root_read : decode_map w ≡ ok (some root')
  pub levels_read : child (codes "levels") (some root') ≡ ok (some levels')
  pub level0_read : child (codes "0") (some levels') ≡ ok (some level0')
  pub root_kept : IsUpdate (codes "levels") root root'
  pub levels_kept : IsUpdate (codes "0") levels levels'
  pub level0_kept : IsUpdate (codes "statsUserOnline") level0 level0'
  pub on : lookup (codes "statsUserOnline") level0' ≡ some (bool true)

pub update :
    (k : Text) (v : Json) (m : Map Json) → IsSorted m → IsUpdate k m (from_entries (insert k v m))
update k v m s j = ground (arith, lookup-put k j v m s, lookup-put k k v m s, text_eq_iff k k)

set_flag-Updated :
    (root levels level0 : Map Json)
    → IsSorted root
    → IsSorted levels
    → IsSorted level0
    → (w : Json) → set_flag (some root) (some levels) (some level0) ≡ changed w
    → Updated root levels level0 w
unfolding set_flag
set_flag-Updated root levels level0 sr sl s0 w h =
    let flag = codes "statsUserOnline" in
    let l0 = insert flag (bool true) level0 in
    let ls = insert (codes "0") (object l0) levels in
    let rt = insert (codes "levels") (object ls) root in
    let e : object rt ≡ w = cc in
    subst (Updated root levels level0) e (record {
      root' = from_entries rt;
      levels' = from_entries ls;
      level0' = from_entries l0;
      root_read = decode_map-object rt;
      levels_read = child-put (codes "levels") (object ls) root sr ∙ decode_map-object ls;
      level0_read = child-put (codes "0") (object l0) levels sl ∙ decode_map-object l0;
      root_kept = update (codes "levels") (object ls) root sr;
      levels_kept = update (codes "0") (object l0) levels sl;
      level0_kept = update flag (bool true) level0 s0;
      on = ground (arith, lookup-put flag flag (bool true) level0 s0, text_eq_iff flag flag);
    })

-- A change that `mergeOnlineFlag` makes is an update of the policy that it was given.
pub merge_updates :
    (v w : Json)
    → merge_online_flag (some v) ≡ changed w
    → (root : Map Json) × (levels : Map Json) × (level0 : Map Json) × (decode_map v
        ≡ ok (some root))
      × (child (codes "levels") (some root) ≡ ok (some levels))
      × (child (codes "0") (some levels) ≡ ok (some level0))
      × Updated root levels level0 w
merge_updates v w h = elim (Result-cases (decode_map v)) [
  | inl (e, p) ↦ unfold merge_online_flag in absurd (ground (arith, p))
  | inr (none, p) ↦ unfold merge_online_flag child set_flag in absurd (ground (arith, p))
  | inr (some root, p) ↦ elim (Result-cases (child (codes "levels") (some root))) [
    | inl (e, q) ↦ unfold merge_online_flag in absurd (ground (arith, p, q))
    | inr (none, q) ↦ unfold merge_online_flag set_flag in absurd (ground (arith, p, q))
    | inr (some levels, q) ↦ elim (Result-cases (child (codes "0") (some levels))) [
      | inl (e, r) ↦ unfold merge_online_flag in absurd (ground (arith, p, q, r))
      | inr (none, r) ↦ unfold merge_online_flag set_flag in absurd (ground (arith, p, q, r))
      | inr (some level0, r) ↦
          let same : set_flag (some root) (some levels) (some level0) ≡ changed w =
            unfold merge_online_flag in ground (arith, p, q, r) in
          (
            root,
            levels,
            level0,
            p,
            q,
            r,
            set_flag-Updated root levels level0 (decode_map-IsSorted v root p)
                (child-IsSorted (codes "levels") (some root) levels q)
                (child-IsSorted (codes "0") (some levels) level0 r) w same,
          )
    ]
  ]
]

fresh_turns_on :
    (w : Json) → merge_online_flag none ≡ changed w → policy_has_online_flag (some w) ≡ true
unfolding merge_online_flag policy_has_online_flag level_zero child decode_map text_eq lookup
    from_entries insert
fresh_turns_on w h =
    let e : object (
          (
            codes "levels",
            object ((codes "0", object ((codes "statsUserOnline", bool true) ∷ [])) ∷ []),
          )
          ∷ [])
        ≡ w =
      cc in
    subst (λ x. policy_has_online_flag (some x) ≡ true) e refl

-- A policy that `mergeOnlineFlag` wrote has the flag on for `policyHasOnlineFlag`.
pub merge_turns_on :
    (o : Option Json) (w : Json)
    → merge_online_flag o ≡ changed w
    → policy_has_online_flag (some w) ≡ true
merge_turns_on none w h = fresh_turns_on w h
merge_turns_on (some v) w h =
    let (_, _, _, _, _, _, up) = merge_updates v w h in
    unfold policy_has_online_flag level_zero online in
    ground (arith, up.root_read, up.levels_read, up.level0_read, up.on)
