-- ===== src/Xray/Codec/Clients.antt =====
-- `Client` and `Settings` of internal/xray/config.go: `UnmarshalJSON` and `MarshalJSON`.
use flint2_xray_web_console.Base.{none, some, List, [], ◌∷◌, Text, codes, Result, ok}
use flint2_xray_web_console.Base.Errors.{◌>>=◌}
use flint2_xray_web_console.Json.{Json, null, int, str, obj, from_members}
use flint2_xray_web_console.Json.Decode.{
  field, not_object, decode_text, decode_int, decode_pointer, decode_list, read_field, omit_text,
  omit_list, omit_nil,
}
use flint2_xray_web_console.Json.Extra.{Slots, collect_extra, merge_extra}
use flint2_xray_web_console.Xray.Model.{Client, Settings}

abbrev pub client_known : List Text
client_known = codes "id" ∷ codes "flow" ∷ codes "email" ∷ codes "level" ∷ []

unfoldable pub decode_client : Json → Result Client
decode_client null = ok (record { id = []; flow = []; email = []; level = none; extra = [] })
decode_client (obj ms) = do
  let o = from_members ms
  id ← read_field [] decode_text (field (codes "id") o)
  flow ← read_field [] decode_text (field (codes "flow") o)
  email ← read_field [] decode_text (field (codes "email") o)
  level ← read_field none (decode_pointer decode_int) (field (codes "level") o)
  ok (record {
    id = id;
    flow = flow;
    email = email;
    level = level;
    extra = collect_extra (obj ms) client_known;
  })
decode_client _ = not_object

abbrev pub client_slots : Client → Slots
client_slots c =
    (codes "id", some (str c.id))
    ∷ (codes "flow", omit_text c.flow)
    ∷ (codes "email", omit_text c.email)
    ∷ (codes "level", omit_nil int c.level)
    ∷ []

unfoldable pub encode_client : Client → Json
encode_client c = merge_extra c.extra (client_slots c)

abbrev pub settings_known : List Text
settings_known = codes "decryption" ∷ codes "clients" ∷ []

unfoldable pub decode_settings : Json → Result Settings
decode_settings null = ok (record { decryption = []; clients = []; extra = [] })
decode_settings (obj ms) = do
  let o = from_members ms
  decryption ← read_field [] decode_text (field (codes "decryption") o)
  clients ← read_field [] (decode_list decode_client) (field (codes "clients") o)
  ok (record {
    decryption = decryption;
    clients = clients;
    extra = collect_extra (obj ms) settings_known;
  })
decode_settings _ = not_object

abbrev pub settings_slots : Settings → Slots
settings_slots s =
    (codes "decryption", omit_text s.decryption)
    ∷ (codes "clients", omit_list encode_client s.clients)
    ∷ []

unfoldable pub encode_settings : Settings → Json
encode_settings s = merge_extra s.extra (settings_slots s)
