-- ===== src/Xray/Codec.antt =====
-- `UnmarshalJSON` and `MarshalJSON` of `Inbound` and `File` of internal/xray/config.go; the
-- structs inside them are in the children.
mod Clients
mod Stream
unfoldable pub use Clients.*
unfoldable pub use Stream.*
use flint2_xray_web_console.Base.{
  Bool, false, Option, none, some, List, [], ◌∷◌, Text, codes, Result, ok, err, fail, map,
}
use flint2_xray_web_console.Base.Errors.{◌>>=◌}
use flint2_xray_web_console.Json.{Json, null, bool, int, str, arr, obj, from_members, to_items}
use flint2_xray_web_console.Json.Decode.{
  field, not_object, decode_text, decode_bool, decode_int, decode_pointer, decode_list, decode_raw,
  read_field, read_raw, omit_text, omit_list, omit_nil, raw_value,
}
use flint2_xray_web_console.Json.Extra.{Slots, collect_extra, merge_extra}
use flint2_xray_web_console.Xray.Model.{
  Client, Settings, RealitySettings, StreamSettings, Inbound, File,
}

abbrev pub inbound_known : List Text
inbound_known =
    codes "listen"
    ∷ codes "port"
    ∷ codes "protocol"
    ∷ codes "tag"
    ∷ codes "settings"
    ∷ codes "streamSettings"
    ∷ codes "sniffing"
    ∷ []

unfoldable pub decode_inbound : Json → Result Inbound
decode_inbound null = ok (record {
  listen = [];
  port = none;
  protocol = [];
  tag = [];
  settings = none;
  stream_settings = none;
  sniffing = none;
  extra = [];
})
decode_inbound (obj ms) = do
  let o = from_members ms
  listen ← read_field [] decode_text (field (codes "listen") o)
  port ← read_raw (field (codes "port") o)
  protocol ← read_field [] decode_text (field (codes "protocol") o)
  tag ← read_field [] decode_text (field (codes "tag") o)
  settings ← read_field none (decode_pointer decode_settings) (field (codes "settings") o)
  stream ← read_field none (decode_pointer decode_stream) (field (codes "streamSettings") o)
  sniffing ← read_raw (field (codes "sniffing") o)
  ok (record {
    listen = listen;
    port = port;
    protocol = protocol;
    tag = tag;
    settings = settings;
    stream_settings = stream;
    sniffing = sniffing;
    extra = collect_extra (obj ms) inbound_known;
  })
decode_inbound _ = not_object

abbrev pub inbound_slots : Inbound → Slots
inbound_slots i =
    (codes "listen", omit_text i.listen)
    ∷ (codes "port", i.port)
    ∷ (codes "protocol", omit_text i.protocol)
    ∷ (codes "tag", omit_text i.tag)
    ∷ (codes "settings", omit_nil encode_settings i.settings)
    ∷ (codes "streamSettings", omit_nil encode_stream i.stream_settings)
    ∷ (codes "sniffing", i.sniffing)
    ∷ []

unfoldable pub encode_inbound : Inbound → Json
encode_inbound i = merge_extra i.extra (inbound_slots i)

abbrev pub file_known : List Text
file_known =
    codes "log"
    ∷ codes "dns"
    ∷ codes "routing"
    ∷ codes "policy"
    ∷ codes "api"
    ∷ codes "stats"
    ∷ codes "inbounds"
    ∷ codes "outbounds"
    ∷ []

-- the slice that has no `omitempty`: nil is `null`
abbrev pub encode_inbounds : Option (List Inbound) → Json
encode_inbounds none = null
encode_inbounds (some l) = arr (to_items (map encode_inbound l))

unfoldable pub decode_file : Json → Result File
decode_file null = ok (record {
  log = none;
  dns = none;
  routing = none;
  policy = none;
  api = none;
  stats = none;
  inbounds = none;
  outbounds = [];
  extra = [];
})
decode_file (obj ms) = do
  let o = from_members ms
  log ← read_raw (field (codes "log") o)
  dns ← read_raw (field (codes "dns") o)
  routing ← read_raw (field (codes "routing") o)
  policy ← read_raw (field (codes "policy") o)
  api ← read_raw (field (codes "api") o)
  stats ← read_raw (field (codes "stats") o)
  inbounds ←
      read_field none (decode_pointer (decode_list decode_inbound)) (field (codes "inbounds") o)
  outbounds ← read_field [] (decode_list decode_raw) (field (codes "outbounds") o)
  ok (record {
    log = log;
    dns = dns;
    routing = routing;
    policy = policy;
    api = api;
    stats = stats;
    inbounds = inbounds;
    outbounds = outbounds;
    extra = collect_extra (obj ms) file_known;
  })
decode_file _ = not_object

abbrev pub file_slots : File → Slots
file_slots f =
    (codes "log", f.log)
    ∷ (codes "dns", f.dns)
    ∷ (codes "routing", f.routing)
    ∷ (codes "policy", f.policy)
    ∷ (codes "api", f.api)
    ∷ (codes "stats", f.stats)
    ∷ (codes "inbounds", some (encode_inbounds f.inbounds))
    ∷ (codes "outbounds", omit_list raw_value f.outbounds)
    ∷ []

unfoldable pub encode_file : File → Json
encode_file f = merge_extra f.extra (file_slots f)
