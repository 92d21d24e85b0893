-- ===== src/Xray/RoundTrip/Clients.antt =====
-- `Client` and `Settings` come back from their own JSON.
use flint2_xray_web_console.Base.{◌≡◌, refl, true, List, [], ◌∷◌, Text, codes, ok, All, text_eq}
use flint2_xray_web_console.Base.Bytes.{fold_eq}
use flint2_xray_web_console.Json.{from-to_members}
use flint2_xray_web_console.Json.Decode.{field, decode-omit_text}
use flint2_xray_web_console.Json.Extra.{merge_extra, merge_entries, collect_extra, contains}
use flint2_xray_web_console.Json.Extra.Bag.{
  IsBag, distinct, unmistaken, slot, field-merge_entries, collect-merge_extra,
}
use flint2_xray_web_console.Xray.RoundTrip.Lists.{
  FitsInt, ComesBack, decode-omit_nil_int, decode-omit_list,
}
use flint2_xray_web_console.Xray.Model.{Client, Settings}
use flint2_xray_web_console.Xray.Codec.{
  decode_client, encode_client, client_slots, client_known, decode_settings, encode_settings,
  settings_slots, settings_known,
}

pub record IsWellformed (c : Client) : Type 0 where
  pub level_fits : FitsInt c.level
  pub bag : IsBag client_known c.extra

module _ (c : Client) (w : IsWellformed c) where
  client_field :
      (name : Text)
      → contains client_known name ≡ true
      → unmistaken name client_known ≡ true
      → field name (merge_entries c.extra (client_slots c)) ≡ slot name (client_slots c)
  unfolding distinct contains text_eq
  client_field name h u = field-merge_entries name c.extra (client_slots c) refl h u w.bag

  client_extra : collect_extra (merge_extra c.extra (client_slots c)) client_known ≡ c.extra
  unfolding distinct contains text_eq
  client_extra = collect-merge_extra c.extra (client_slots c) refl w.bag

  pub decode-encode_client : decode_client (encode_client c) ≡ ok c
  unfolding decode_client encode_client merge_extra contains unmistaken fold_eq text_eq slot
  decode-encode_client = rw (
    from-to_members,
    client_field (codes "id") refl refl,
    client_field (codes "flow") refl refl,
    client_field (codes "email") refl refl,
    client_field (codes "level") refl refl,
    decode-omit_text c.flow,
    decode-omit_text c.email,
    decode-omit_nil_int c.level w.level_fits,
    client_extra,
  )

-- Every client of the list is well formed.
pub record IsWellformedSettings (s : Settings) : Type 0 where
  pub clients : All IsWellformed s.clients
  pub bag : IsBag settings_known s.extra

clients_come_back :
    (l : List Client) → All IsWellformed l → All (ComesBack encode_client decode_client) l
clients_come_back [] h = tt
clients_come_back (c ∷ l) h = (decode-encode_client c h.0, clients_come_back l h.1)

module _ (s : Settings) (w : IsWellformedSettings s) where
  settings_field :
      (name : Text)
      → contains settings_known name ≡ true
      → unmistaken name settings_known ≡ true
      → field name (merge_entries s.extra (settings_slots s)) ≡ slot name (settings_slots s)
  unfolding distinct contains text_eq
  settings_field name h u = field-merge_entries name s.extra (settings_slots s) refl h u w.bag

  settings_extra : collect_extra (merge_extra s.extra (settings_slots s)) settings_known ≡ s.extra
  unfolding distinct contains text_eq
  settings_extra = collect-merge_extra s.extra (settings_slots s) refl w.bag

  pub decode-encode_settings : decode_settings (encode_settings s) ≡ ok s
  unfolding decode_settings encode_settings merge_extra contains unmistaken fold_eq text_eq slot
  decode-encode_settings = rw (
    from-to_members,
    settings_field (codes "decryption") refl refl,
    settings_field (codes "clients") refl refl,
    decode-omit_text s.decryption,
    decode-omit_list encode_client decode_client s.clients (clients_come_back s.clients w.clients),
    settings_extra,
  )
