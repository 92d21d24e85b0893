-- ===== src/Panel/Reality.antt =====
-- PATCH /api/server/reality of internal/http/server_admin.go.
pub mod Outcome
use flint2_xray_web_console.Base.{
  ℕ, Bool, true, false, Option, none, some, List, [], ◌∷◌, Text, codes, Result, ok, err, Error,
  fail, wrap, if◌then◌else◌, ◌&&◌, ◌||◌, not, is_some, leb, ◌==◌, length,
}
use flint2_xray_web_console.Base.Errors.{◌>>=◌}
use flint2_xray_web_console.Base.Strings.{trim_space}
use flint2_xray_web_console.Json.{null, obj, from_members}
use flint2_xray_web_console.Json.Decode.{
  field, read_field, decode_text, decode_list, decode_pointer, not_object,
}
use flint2_xray_web_console.Os.{Env, Content, json, raw}
use flint2_xray_web_console.Xray.Model.{RealitySettings, StreamSettings, Inbound, File}
use flint2_xray_web_console.Xray.Clients.{primary_inbound, set_primary}
use flint2_xray_web_console.Panel.Types.{
  Server, Response, reply, reply_error, status_for_err, status_body,
}
use flint2_xray_web_console.Panel.Mutate.{mutate_config}

-- `realityPatchReq`
pub record RealityPatch : Type 0 where
  pub dest : Option Text
  pub server_names : Option (List Text)
  pub short_ids : Option (List Text)
  pub fingerprint : Option Text

unfoldable pub decode_reality_patch : Content → Result RealityPatch
decode_reality_patch (json null) =
    ok (record { dest = none; server_names = none; short_ids = none; fingerprint = none })
decode_reality_patch (json (obj ms)) = do
  let o = from_members ms
  dest ← read_field none (decode_pointer decode_text) (field (codes "dest") o)
  server_names ←
      read_field none (decode_pointer (decode_list decode_text)) (field (codes "serverNames") o)
  short_ids ←
      read_field none (decode_pointer (decode_list decode_text)) (field (codes "shortIds") o)
  fingerprint ← read_field none (decode_pointer decode_text) (field (codes "fingerprint") o)
  ok (record {
    dest = dest;
    server_names = server_names;
    short_ids = short_ids;
    fingerprint = fingerprint;
  })
decode_reality_patch (json _) = not_object
decode_reality_patch (raw s) = err (fail "invalid JSON")

-- 0-9, A-F or a-f
unfoldable pub is_hex : ℕ → Bool
is_hex c = (leb 48 c && leb c 57) || (leb 65 c && leb c 70) || (leb 97 c && leb c 102)

unfoldable pub all_hex : Text → Bool
unfolding is_hex
all_hex [] = true
all_hex (c ∷ s) = is_hex c && all_hex s

-- `shortIDRe.MatchString`
unfoldable pub matches_short_id : Text → Bool
unfolding all_hex
matches_short_id s = all_hex s && leb (length s) 32

-- `len(sid)%2 == 0`
unfoldable pub has_even_length : Text → Bool
has_even_length [] = true
has_even_length (c ∷ []) = false
has_even_length (c ∷ d ∷ s) = has_even_length s

-- the loop over `shortIds`: the first that is refused
unfoldable pub check_short_ids : List Text → Result (Unit {0})
unfolding matches_short_id has_even_length
check_short_ids [] = ok tt
check_short_ids (s ∷ l) =
    if not (matches_short_id s)
    then err (fail "shortId must be hex, even length, up to 32 chars")
    else if not (has_even_length s)
    then err (fail "shortId must be even length")
    else check_short_ids l

abbrev pub or_keep : {A : Type 0} → Option A → A → A
or_keep none a = a
or_keep (some b) a = b

abbrev pub trimmed : Option Text → Option Text
trimmed none = none
trimmed (some s) = some (trim_space s)

unfoldable pub patch_settings : RealityPatch → RealitySettings → RealitySettings
patch_settings req rs = record rs {
  dest = or_keep (trimmed req.dest) rs.dest;
  server_names = or_keep req.server_names rs.server_names;
  short_ids = or_keep req.short_ids rs.short_ids;
  fingerprint = or_keep req.fingerprint rs.fingerprint;
}

-- `in.StreamSettings.RealitySettings`, if both pointers are set
abbrev pub reality_of : Inbound → Option RealitySettings
reality_of i = elim i.stream_settings [ none ↦ none | some t ↦ t.reality_settings ]

-- the inbound after a write through that pointer
abbrev pub with_reality : RealitySettings → Inbound → Inbound
with_reality rs i = record i {
  stream_settings = elim i.stream_settings [
    | none ↦ none
    | some t ↦ some (record t { reality_settings = some rs })
  ];
}

-- the function that `handlePatchReality` hands to `mutateConfig`
unfoldable pub patch_reality : RealityPatch → File → Result (File × Unit {0})
unfolding patch_settings
patch_reality req f = do
  i ← primary_inbound f
  elim (reality_of i) [
    | none ↦ err (fail "inbound has no realitySettings to patch")
    | some rs ↦ ok (set_primary (with_reality (patch_settings req rs) i) f, tt)
  ]

abbrev pub is_empty_patch : RealityPatch → Bool
is_empty_patch req =
    not (is_some req.dest)
    && not (is_some req.server_names)
    && not (is_some req.short_ids)
    && not (is_some req.fingerprint)

abbrev pub short_ids_ok : Option (List Text) → Result (Unit {0})
short_ids_ok none = ok tt
short_ids_ok (some l) = check_short_ids l

module _ (env : Env) where
  -- `handlePatchReality` past the checks of the request
  unfoldable pub apply_reality : RealityPatch → Server → Response × Server
  apply_reality req s =
      let (r, s') = mutate_config env (λ f w. patch_reality req f) s in
      elim r [
        | err e ↦ (reply_error (status_for_err e) e, s')
        | ok _ ↦ (reply 200 (status_body (codes "ok")), s')
      ]

  unfoldable pub handle_patch_reality : Content → Server → Response × Server
  unfolding check_short_ids apply_reality
  handle_patch_reality body s = elim (decode_reality_patch body) [
    | err e ↦ (reply_error 400 (wrap "parse body" e), s)
    | ok req ↦
        if is_empty_patch req
        then (reply_error 400 (fail "nothing to change"), s)
        else elim (short_ids_ok req.short_ids) [
          | err e ↦ (reply_error 400 e, s)
          | ok _ ↦ apply_reality req s
        ]
  ]
