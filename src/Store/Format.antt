-- ===== src/Store/Format.antt =====
-- The JSON file of the disabled store: `disabledFile` and `DisabledClient`. A time is its text.
use flint2_xray_web_console.Base.{
  Bool, Option, none, some, List, [], ◌∷◌, Text, codes, ok, err, fail, Result, if◌then◌else◌, map,
}
use flint2_xray_web_console.Base.Errors.{◌>>=◌, wrap_err}
use flint2_xray_web_console.Base.Int.{ℤ}
use flint2_xray_web_console.Json.{
  Json, null, int, str, arr, obj, from_members, to_members, to_items,
}
use flint2_xray_web_console.Json.Decode.{field, read_field, decode_int, decode_list, not_object}
use flint2_xray_web_console.Os.{Content, json, raw}
use flint2_xray_web_console.Xray.Model.{Client}
use flint2_xray_web_console.Xray.Codec.{decode_client, encode_client}

pub record DisabledClient : Type 0 where
  pub client : Client
  pub disabled_at : Text

abbrev pub empty_client : Client
empty_client = record { id = []; flow = []; email = []; level = none; extra = [] }

abbrev pub zero_time : Text
zero_time = codes "0001-01-01T00:00:00Z"

module _ (is_time : Text → Bool) where
  abbrev pub decode_time : Json → Result Text
  decode_time null = ok zero_time
  decode_time (str s) = if is_time s then ok s else err (fail "parsing time")
  decode_time _ = err (fail "Time.UnmarshalJSON: input is not a JSON string")

  unfoldable pub decode_entry : Json → Result DisabledClient
  decode_entry null = ok (record { client = empty_client; disabled_at = zero_time })
  decode_entry (obj ms) = do
    let o = from_members ms
    client ← read_field empty_client decode_client (field (codes "client") o)
    at ← read_field zero_time decode_time (field (codes "disabledAt") o)
    ok (record { client = client; disabled_at = at })
  decode_entry _ = not_object

  unfoldable pub decode_store : Json → Result (List DisabledClient)
  decode_store null = ok []
  decode_store (obj ms) = do
    let o = from_members ms
    _ ← read_field (ℤ.pos 0) decode_int (field (codes "version") o)
    read_field [] (decode_list decode_entry) (field (codes "clients") o)
  decode_store _ = not_object

  -- what `List` makes of the file: a missing or empty one has no clients
  unfoldable pub stored : Option Content → Result (List DisabledClient)
  unfolding decode_store
  stored none = ok []
  stored (some (raw [])) = ok []
  stored (some (raw (c ∷ s))) = err (fail "parse disabled store")
  stored (some (json v)) = wrap_err "parse disabled store" (decode_store v)

unfoldable pub encode_entry : DisabledClient → Json
encode_entry d = obj (
    to_members
      ((codes "client", encode_client d.client) ∷ (codes "disabledAt", str d.disabled_at) ∷ []))

unfoldable pub encode_store : List DisabledClient → Json
encode_store l = obj (
    to_members (
      (codes "version", int (ℤ.pos 1))
      ∷ (codes "clients", arr (to_items (map encode_entry l)))
      ∷ []))
