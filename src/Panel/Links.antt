-- ===== src/Panel/Links.antt =====
-- The link and QR endpoints of internal/http/clients.go.
pub mod Live
use flint2_xray_web_console.Base.{
  none, some, List, [], ◌∷◌, Text, Result, ok, err, fail, not_found, wrap, if◌then◌else◌, is_nil,
}
use flint2_xray_web_console.Exec.{Exec}
use flint2_xray_web_console.Os.{Env}
use flint2_xray_web_console.Vless.{Params, build_url}
use flint2_xray_web_console.Xray.Model.{File, Inbound, Client, RealitySettings}
use flint2_xray_web_console.Xray.Clients.{primary_inbound, settings_of, find_id}
use flint2_xray_web_console.Xray.Disk.{read_config}
use flint2_xray_web_console.Panel.Types.{
  Server, Response, reply, reply_error, url_body, png_body, on_world, status_for_err,
}
use flint2_xray_web_console.Panel.Keys.{public_key}
use flint2_xray_web_console.Panel.Reality.{reality_of}
use flint2_xray_web_console.Panel.Summary.{parse_port}

-- the first element, or an empty text
abbrev pub first_of : List Text → Text
first_of [] = []
first_of (s ∷ l) = s

abbrev pub network_of : Inbound → Text
network_of i = elim i.stream_settings [ none ↦ [] | some t ↦ t.network ]

unfoldable pub link_params : Server → Inbound → Client → RealitySettings → Text → Params
unfolding parse_port
link_params s i c rs key = record {
  uuid = c.id;
  host = s.cfg.server_address;
  port = parse_port i.port;
  flow = c.flow;
  name = c.email;
  network = network_of i;
  sni = first_of rs.server_names;
  fingerprint = rs.fingerprint;
  public_key = key;
  short_id = first_of rs.short_ids;
  spider_x = [];
}

module _ (env : Env) where
  -- what is left of `buildLink` once the config is read
  unfoldable pub link_from : Text → File → Exec Server Text
  unfolding find_id public_key link_params build_url
  link_from id f s = elim (primary_inbound f) [
    | err e ↦ (err e, s)
    | ok i ↦ elim (find_id id (settings_of i).clients) [
      | none ↦ (err (not_found id), s)
      | some c ↦ elim (reality_of i) [
        | none ↦ (err (fail "no reality settings in config"), s)
        | some rs ↦
            let (r, s') = public_key env rs.private_key s in
            elim r [
              | err e ↦ (err (wrap "derive public key" e), s')
              | ok key ↦ (build_url (link_params s' i c rs key), s')
            ]
      ]
    ]
  ]

  unfoldable pub build_link : Text → Exec Server Text
  unfolding read_config link_from
  build_link id s =
      if is_nil id
      then (err (fail "id required"), s)
      else let (r, s') = on_world (read_config env s.conf_path) s in
        elim r [ err e ↦ (err (wrap "read config" e), s') | ok f ↦ link_from id f s' ]

  unfoldable pub handle_client_link : Text → Server → Response × Server
  unfolding build_link
  handle_client_link id s =
      let (r, s') = build_link id s in
      elim r [
        | err e ↦ (reply_error (status_for_err e) e, s')
        | ok url ↦ (reply 200 (url_body url), s')
      ]

  -- with the image library as `png`
  unfoldable pub handle_client_qr : (Text → Result Text) → Text → Server → Response × Server
  unfolding build_link
  handle_client_qr png id s =
      let (r, s') = build_link id s in
      elim r [
        | err e ↦ (reply_error (status_for_err e) e, s')
        | ok url ↦ elim (png url) [
          | err e ↦ (reply_error 500 e, s')
          | ok image ↦ (reply 200 (png_body image), s')
        ]
      ]
