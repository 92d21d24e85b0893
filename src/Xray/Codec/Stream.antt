-- ===== src/Xray/Codec/Stream.antt =====
-- `RealitySettings` and `StreamSettings` of internal/xray/config.go: `UnmarshalJSON` and
-- `MarshalJSON`.
use flint2_xray_web_console.Base.{false, none, some, List, [], ◌∷◌, Text, codes, Result, ok}
use flint2_xray_web_console.Base.Errors.{◌>>=◌}
use flint2_xray_web_console.Json.{Json, null, bool, int, str, obj, from_members}
use flint2_xray_web_console.Json.Decode.{
  field, not_object, decode_text, decode_bool, decode_int, decode_pointer, decode_list, read_field,
  read_raw, omit_text, omit_list, omit_nil,
}
use flint2_xray_web_console.Json.Extra.{Slots, collect_extra, merge_extra}
use flint2_xray_web_console.Xray.Model.{RealitySettings, StreamSettings}

abbrev pub reality_known : List Text
reality_known =
    codes "show"
    ∷ codes "dest"
    ∷ codes "xver"
    ∷ codes "serverNames"
    ∷ codes "privateKey"
    ∷ codes "shortIds"
    ∷ codes "fingerprint"
    ∷ []

unfoldable pub decode_reality : Json → Result RealitySettings
decode_reality null = ok (record {
  show = false;
  dest = [];
  xver = none;
  server_names = [];
  private_key = [];
  short_ids = [];
  fingerprint = [];
  extra = [];
})
decode_reality (obj ms) = do
  let o = from_members ms
  show ← read_field false decode_bool (field (codes "show") o)
  dest ← read_field [] decode_text (field (codes "dest") o)
  xver ← read_field none (decode_pointer decode_int) (field (codes "xver") o)
  server_names ← read_field [] (decode_list decode_text) (field (codes "serverNames") o)
  private_key ← read_field [] decode_text (field (codes "privateKey") o)
  short_ids ← read_field [] (decode_list decode_text) (field (codes "shortIds") o)
  fingerprint ← read_field [] decode_text (field (codes "fingerprint") o)
  ok (record {
    show = show;
    dest = dest;
    xver = xver;
    server_names = server_names;
    private_key = private_key;
    short_ids = short_ids;
    fingerprint = fingerprint;
    extra = collect_extra (obj ms) reality_known;
  })
decode_reality _ = not_object

abbrev pub reality_slots : RealitySettings → Slots
reality_slots r =
    (codes "show", some (bool r.show))
    ∷ (codes "dest", omit_text r.dest)
    ∷ (codes "xver", omit_nil int r.xver)
    ∷ (codes "serverNames", omit_list str r.server_names)
    ∷ (codes "privateKey", omit_text r.private_key)
    ∷ (codes "shortIds", omit_list str r.short_ids)
    ∷ (codes "fingerprint", omit_text r.fingerprint)
    ∷ []

unfoldable pub encode_reality : RealitySettings → Json
encode_reality r = merge_extra r.extra (reality_slots r)

abbrev pub stream_known : List Text
stream_known =
    codes "network" ∷ codes "security" ∷ codes "realitySettings" ∷ codes "tlsSettings" ∷ []

unfoldable pub decode_stream : Json → Result StreamSettings
decode_stream null = ok (record {
  network = [];
  security = [];
  reality_settings = none;
  tls_settings = none;
  extra = [];
})
decode_stream (obj ms) = do
  let o = from_members ms
  network ← read_field [] decode_text (field (codes "network") o)
  security ← read_field [] decode_text (field (codes "security") o)
  reality ← read_field none (decode_pointer decode_reality) (field (codes "realitySettings") o)
  tls ← read_raw (field (codes "tlsSettings") o)
  ok (record {
    network = network;
    security = security;
    reality_settings = reality;
    tls_settings = tls;
    extra = collect_extra (obj ms) stream_known;
  })
decode_stream _ = not_object

abbrev pub stream_slots : StreamSettings → Slots
stream_slots s =
    (codes "network", omit_text s.network)
    ∷ (codes "security", omit_text s.security)
    ∷ (codes "realitySettings", omit_nil encode_reality s.reality_settings)
    ∷ (codes "tlsSettings", s.tls_settings)
    ∷ []

unfoldable pub encode_stream : StreamSettings → Json
encode_stream s = merge_extra s.extra (stream_slots s)
