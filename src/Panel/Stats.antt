-- ===== src/Panel/Stats.antt =====
-- `mergeRoutingRule` and the change that POST /api/server/enable-stats makes to the config, in
-- internal/http/server_admin.go.
pub mod Enable
use flint2_xray_web_console.Json.Decode.{decode_map}
use flint2_xray_web_console.Base.{
  Bool, true, false, Option, none, some, List, [], ◌∷◌, ◌++◌, Text, codes, text_eq, Result, ok, err,
  fail, if◌then◌else◌, ◌||◌, is_some,
}
use flint2_xray_web_console.Base.Int.{ℤ}
use flint2_xray_web_console.Json.{Json, int, str, bool, arr, to_items}
use flint2_xray_web_console.Json.Map.{Map, lookup, insert}
use flint2_xray_web_console.Json.Decode.{decode_list, decode_raw}
use flint2_xray_web_console.Xray.Model.{Settings, Inbound, File}
use flint2_xray_web_console.Xray.Clients.{inbounds_of}
use flint2_xray_web_console.Panel.Policy.{object}

-- the slice that `json.Unmarshal` leaves; on an error it stays nil
unfoldable pub rules_in : Option Json → List Json
unfolding decode_list
rules_in none = []
rules_in (some v) = elim (decode_list decode_raw v) [ ok l ↦ l | err e ↦ [] ]

unfoldable pub merge_routing_rule : Option Json → Json → Json
unfolding decode_map rules_in
merge_routing_rule none rule = object (
    (codes "domainStrategy", str (codes "AsIs")) ∷ (codes "rules", arr (to_items (rule ∷ []))) ∷ [])
merge_routing_rule (some v) rule = elim (decode_map v) [
  | err e ↦ object ((codes "rules", arr (to_items (rule ∷ []))) ∷ [])
  | ok o ↦ elim o [
    | none ↦ object ((codes "rules", arr (to_items (rule ∷ []))) ∷ [])
    | some m ↦
        let rules = rules_in (lookup (codes "rules") m) in
        object (insert (codes "rules") (arr (to_items (rules ++ rule ∷ []))) m)
  ]
]

abbrev pub api_block : Json
api_block = object (
    (codes "tag", str (codes "api"))
    ∷ (codes "services", arr (to_items (str (codes "StatsService") ∷ [])))
    ∷ [])

abbrev pub policy_block : Json
policy_block = object (
    (
      codes "levels",
      object (
          (
            codes "0",
            object (
                (codes "statsUserUplink", bool true)
                ∷ (codes "statsUserDownlink", bool true)
                ∷ (codes "statsUserOnline", bool true)
                ∷ []),
          )
          ∷ []),
    )
    ∷ (
      codes "system",
      object (
          (codes "statsInboundUplink", bool true)
          ∷ (codes "statsInboundDownlink", bool true)
          ∷ (codes "statsOutboundUplink", bool true)
          ∷ (codes "statsOutboundDownlink", bool true)
          ∷ []),
    )
    ∷ [])

abbrev pub api_rule : Json
api_rule = object (
    (codes "type", str (codes "field"))
    ∷ (codes "inboundTag", arr (to_items (str (codes "api") ∷ [])))
    ∷ (codes "outboundTag", str (codes "api"))
    ∷ [])

abbrev pub api_settings : Settings
api_settings = record {
  decryption = [];
  clients = [];
  extra = (codes "address", str (codes "127.0.0.1")) ∷ [];
}

abbrev pub api_inbound_at : Text → ℤ → Inbound
api_inbound_at host port = record {
  listen = host;
  port = some (int port);
  protocol = codes "dokodemo-door";
  tag = codes "api";
  settings = some api_settings;
  stream_settings = none;
  sniffing = none;
  extra = [];
}

unfoldable pub has_api_tag : List Inbound → Bool
has_api_tag [] = false
has_api_tag (i ∷ l) = text_eq i.tag (codes "api") || has_api_tag l

-- the function that `handleEnableStats` hands to `mutateConfig`
unfoldable pub enable_stats : Text → ℤ → File → Result (File × Unit {0})
unfolding merge_routing_rule has_api_tag
enable_stats host port f =
    if is_some f.api || is_some f.stats
    then err (fail "stats api already enabled")
    else if has_api_tag (inbounds_of f)
    then err (fail "an inbound with tag \"api\" already exists")
    else ok (
      record f {
        api = some api_block;
        stats = some (object []);
        policy = some policy_block;
        routing = some (merge_routing_rule f.routing api_rule);
        inbounds = some (api_inbound_at host port ∷ inbounds_of f);
      },
      tt,
    )
