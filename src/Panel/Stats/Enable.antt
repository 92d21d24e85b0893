-- ===== src/Panel/Stats/Enable.antt =====
-- What enabling the stats API adds to a config, and what it leaves alone.
use flint2_xray_web_console.Json.Decode.{decode_map}
use flint2_xray_web_console.Base.{
  ◌≡◌, refl, true, false, Option, none, some, List, [], ◌∷◌, ◌++◌, Text, codes, text_eq,
  text_eq_iff, ok, err, arith, inl, inr, is_some, ◌≢◌,
}
use flint2_xray_web_console.Base.Errors.{Result-cases, is_ok}
use flint2_xray_web_console.Base.Int.{ℤ}
use flint2_xray_web_console.Json.{Json, arr, to_items, str}
use flint2_xray_web_console.Json.Map.{Map, lookup, insert, from_entries, has}
use flint2_xray_web_console.Json.Decode.{decode_list, decode_raw}
use flint2_xray_web_console.Xray.Model.{File}
use flint2_xray_web_console.Xray.Clients.{
  clients_of, primary_inbound, first_vless, is_vless, inbounds_of,
}
use flint2_xray_web_console.Panel.Policy.{
  online, object, policy_has_online_flag, level_zero, child, is_true,
}
use flint2_xray_web_console.Panel.Policy.Merge.{lookup-put, decode_map-object, decode_map-IsSorted}
use flint2_xray_web_console.Panel.Stats.{
  merge_routing_rule, rules_in, enable_stats, api_rule, api_inbound_at, policy_block,
}
use flint2_xray_web_console.Base.Bytes.{text_lt}

-- the rules of a routing block; none where it is missing or no object
unfoldable pub rules_of : Option Json → List Json
rules_of none = []
rules_of (some v) = elim (decode_map v) [
  | err e ↦ []
  | ok o ↦ elim o [ none ↦ [] | some m ↦ rules_in (lookup (codes "rules") m) ]
]

raw_back : (l : List Json) → decode_list decode_raw (arr (to_items l)) ≡ ok l
unfolding decode_list
raw_back [] = refl
raw_back (v ∷ l) = rw (raw_back l) refl

rules_in-arr : (l : List Json) → rules_in (some (arr (to_items l))) ≡ l
unfolding rules_in
rules_in-arr l = ground (arith, raw_back l)

written :
    (m : Map Json) (l : List Json)
    → lookup (codes "rules") (from_entries m) ≡ some (arr (to_items l))
    → rules_of (some (object m)) ≡ l
unfolding rules_of
written m l h = ground (arith, decode_map-object m, h, rules_in-arr l)

rules_read :
    (v : Json) (m : Map Json)
    → decode_map v ≡ ok (some m)
    → rules_of (some v) ≡ rules_in (lookup (codes "rules") m)
unfolding rules_of
rules_read v m h = ground (arith, h)

-- a routing block of this rule alone
abbrev only : Json → Json
only rule = object ((codes "rules", arr (to_items (rule ∷ []))) ∷ [])

only_lem : (rule : Json) → rules_of (some (only rule)) ≡ rule ∷ []
unfolding lookup from_entries has insert text_eq text_lt
only_lem rule = written ((codes "rules", arr (to_items (rule ∷ []))) ∷ []) (rule ∷ []) refl

fresh_lem : (rule : Json) → rules_of (some (merge_routing_rule none rule)) ≡ rule ∷ []
unfolding merge_routing_rule lookup from_entries has insert text_eq text_lt
fresh_lem rule =
    written
      ((codes "domainStrategy", str (codes "AsIs"))
        ∷ (codes "rules", arr (to_items (rule ∷ [])))
        ∷ [])
      (rule ∷ []) refl

merge_read :
    (v rule : Json) (m : Map Json)
    → decode_map v ≡ ok (some m)
    → merge_routing_rule (some v) rule
      ≡ object (
          insert
            (codes "rules")
            (arr (to_items (rules_in (lookup (codes "rules") m) ++ rule ∷ [])))
            m)
unfolding merge_routing_rule
merge_read v rule m p = ground (arith, p)

-- a routing block that is no object
merge_unread :
    (v rule : Json)
    → ((m : Map Json) → decode_map v ≢ ok (some m))
    → (merge_routing_rule (some v) rule ≡ only rule) × (rules_of (some v) ≡ [])
unfolding merge_routing_rule rules_of
merge_unread v rule other = elim (Result-cases (decode_map v)) [
  | inl (e, p) ↦ ground (arith, p)
  | inr (none, p) ↦ ground (arith, p)
  | inr (some m, p) ↦ absurd (other m p)
]

merge_replaces :
    (v rule : Json)
    → ((m : Map Json) → decode_map v ≢ ok (some m))
    → rules_of (some (merge_routing_rule (some v) rule)) ≡ rules_of (some v) ++ rule ∷ []
merge_replaces v rule other =
    let (at, empty) = merge_unread v rule other in rw (at, empty) (only_lem rule)

-- The rules of the routing block that mergeRoutingRule returns are those that were there, if they
-- could be read, and then the new one.
pub merge_routing_rule_lem :
    (o : Option Json) (rule : Json)
    → rules_of (some (merge_routing_rule o rule)) ≡ rules_of o ++ rule ∷ []
merge_routing_rule_lem none rule = unfold rules_of in fresh_lem rule
merge_routing_rule_lem (some v) rule = elim (Result-cases (decode_map v)) [
  | inl (e, p) ↦ merge_replaces v rule (λ m q. cc)
  | inr (none, p) ↦ merge_replaces v rule (λ m q. ground (arith, p, q))
  | inr (some m, p) ↦
      let l = rules_in (lookup (codes "rules") m) ++ rule ∷ [] in
      rw (merge_read v rule m p, rules_read v m p)
        (written (insert (codes "rules") (arr (to_items l)) m) l (
          ground (
            arith,
            lookup-put (codes "rules") (codes "rules") (arr (to_items l)) m
                (decode_map-IsSorted v m p),
            text_eq_iff (codes "rules") (codes "rules"),
          )))
]

-- the config after `enable_stats`
enabled_at :
    (host : Text) (port : ℤ) (f f' : File) (u : Unit {0})
    → enable_stats host port f ≡ ok (f', u)
    → (f'.inbounds ≡ some (api_inbound_at host port ∷ inbounds_of f))
      × (f'.routing ≡ some (merge_routing_rule f.routing api_rule))
      × (f'.policy ≡ some policy_block)
      × (f'.extra ≡ f.extra)
      × (is_some f'.api ≡ true)
unfolding enable_stats
enabled_at host port f f' u h = ground arith

clients_kept :
    (host : Text) (port : ℤ) (f f' : File)
    → f'.inbounds ≡ some (api_inbound_at host port ∷ inbounds_of f)
    → clients_of f' ≡ clients_of f
unfolding clients_of primary_inbound first_vless is_vless text_eq
clients_kept host port f f' h = ground (arith, h)

block_online : policy_has_online_flag (some policy_block) ≡ true
unfolding policy_has_online_flag level_zero child online is_true decode_map lookup from_entries has
    insert text_eq text_lt
block_online = refl

-- Enabling the stats API keeps the client list and the unknown fields of the config, adds the rule
-- for the API after the routing rules, switches online tracking on, and cannot be done twice.
pub enable_stats_lem :
    (host host' : Text) (port port' : ℤ) (f f' : File) (u : Unit {0})
    → enable_stats host port f ≡ ok (f', u)
    → (clients_of f' ≡ clients_of f)
      × (f'.extra ≡ f.extra)
      × (rules_of f'.routing ≡ rules_of f.routing ++ api_rule ∷ [])
      × (policy_has_online_flag f'.policy ≡ true)
      × (is_ok (enable_stats host' port' f') ≡ false)
enable_stats_lem host host' port port' f f' u h =
    let (inbounds, routing, policy, extra, api) = enabled_at host port f f' u h in
    (
      clients_kept host port f f' inbounds,
      extra,
      rw routing (merge_routing_rule_lem f.routing api_rule),
      rw policy block_online,
      unfold enable_stats in ground (arith, api),
    )
