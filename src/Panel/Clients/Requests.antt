-- ===== src/Panel/Clients/Requests.antt =====
-- `createClientReq` and `patchClientReq` of internal/http/clients.go, decoded from a body.
use flint2_xray_web_console.Base.{Option, none, [], Text, codes, Result, ok, err, fail}
use flint2_xray_web_console.Base.Errors.{◌>>=◌}
use flint2_xray_web_console.Json.{null, obj, from_members}
use flint2_xray_web_console.Json.Decode.{field, read_field, decode_text, decode_pointer, not_object}
use flint2_xray_web_console.Os.{Content, json, raw}

pub record CreateRequest : Type 0 where
  pub name : Text
  pub flow : Text

pub record PatchRequest : Type 0 where
  pub name : Option Text
  pub flow : Option Text

unfoldable pub decode_create : Content → Result CreateRequest
decode_create (json null) = ok (record { name = []; flow = [] })
decode_create (json (obj ms)) = do
  name ← read_field [] decode_text (field (codes "name") (from_members ms))
  flow ← read_field [] decode_text (field (codes "flow") (from_members ms))
  ok (record { name = name; flow = flow })
decode_create (json _) = not_object
decode_create (raw s) = err (fail "invalid JSON")

unfoldable pub decode_patch : Content → Result PatchRequest
decode_patch (json null) = ok (record { name = none; flow = none })
decode_patch (json (obj ms)) = do
  name ← read_field none (decode_pointer decode_text) (field (codes "name") (from_members ms))
  flow ← read_field none (decode_pointer decode_text) (field (codes "flow") (from_members ms))
  ok (record { name = name; flow = flow })
decode_patch (json _) = not_object
decode_patch (raw s) = err (fail "invalid JSON")
