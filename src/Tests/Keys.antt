-- ===== src/Tests/Keys.antt =====
-- The theorems on the keys, the links and the state at concrete inputs.
use flint2_xray_web_console.Base.{
  ◌≤◌, ◌≡◌, ℕ, false, some, [], ◌∷◌, ◌++◌, Text, codes, ok, refl, if◌then◌else◌, arith, none, true,
}
use flint2_xray_web_console.Base.Errors.{is_ok, wrap, fail, Result}
use flint2_xray_web_console.Base.Int.{pos}
use flint2_xray_web_console.Json.Map.{Map}
use flint2_xray_web_console.Os.{Env, named, json, exit_ok, tick, World}
use flint2_xray_web_console.Xray.Model.{File}
use flint2_xray_web_console.Xray.Codec.{encode_file}
use flint2_xray_web_console.Xray.Clients.{find_id, set_primary, primary_inbound, is_vless}
use flint2_xray_web_console.Xray.Keys.{Keypair, extract_private, extract_public, generate}
use flint2_xray_web_console.Xray.Keys.Printed.{printed_read}
use flint2_xray_web_console.Vless.{
  Params, build_url, join_host_port, itoa_port, query_escape, url_of,
}
use flint2_xray_web_console.Vless.Reader.{read_link}
use flint2_xray_web_console.Vless.Link.{Says, IsText, build_url_lem}
use flint2_xray_web_console.Panel.Types.{Server, url_body, reply_error, reply, online_body}
use flint2_xray_web_console.Panel.Mutate.{rewrite}
use flint2_xray_web_console.Panel.Mutate.Outcome.{wrote, rewrite_done, mutate_config_lem}
use flint2_xray_web_console.Panel.Reality.{with_reality}
use flint2_xray_web_console.Panel.Keys.{public_key, set_private_key, handle_regenerate_keys}
use flint2_xray_web_console.Panel.Keys.Regenerate.{regenerate_lem}
use flint2_xray_web_console.Panel.State.{collect_config}
use flint2_xray_web_console.Panel.State.Secret.{private_key_hidden}
use flint2_xray_web_console.Tests.Samples.{
  env, server, world, conf_path, alice, vless_inbound, reality,
}
use flint2_xray_web_console.Tests.Facts.{with_alice, conf_holds, with_alice-IsWellformed}
use flint2_xray_web_console.Base.Bytes.{text_eq, text_lt}
use flint2_xray_web_console.Json.{Json, bool}
use flint2_xray_web_console.Panel.Admin.{
  handle_enable_online_tracking, turn_online_on, enable_online,
}
use flint2_xray_web_console.Xray.RoundTrip.{IsWellformedFile, decode-encode_file}
use flint2_xray_web_console.Panel.Policy.{merge_online_flag, object, changed}
use flint2_xray_web_console.Panel.Admin.Tracking.{tracking_again, first_live}
use flint2_xray_web_console.Xray.Disk.{write_config, backup_if_exists, install, replace}
use flint2_xray_web_console.Service.{restart}
use flint2_xray_web_console.Panel.Links.{link_params, link_from, build_link, handle_client_link}
use flint2_xray_web_console.Panel.Links.Live.{build_link_live, IsLinkOf, client_link_live}

printed_read_example :
    (extract_private (codes "Private key: ab" ++ (10 ∷ (codes "Public key: cd" ++ (10 ∷ []))))
      ≡ some (codes "ab"))
    × (extract_public (codes "Private key: ab" ++ (10 ∷ (codes "Public key: cd" ++ (10 ∷ []))))
        ≡ some (codes "cd"))
    × (extract_private
          (codes "PrivateKey: ab" ++ (10 ∷ (codes "Password (PublicKey): cd" ++ (10 ∷ []))))
        ≡ some (codes "ab"))
    × (extract_public
          (codes "PrivateKey: ab" ++ (10 ∷ (codes "Password (PublicKey): cd" ++ (10 ∷ []))))
        ≡ some (codes "cd"))
printed_read_example =
    printed_read (codes "ab") (codes "cd") [] (refl, (refl, (refl, tt))) (refl, (refl, (refl, tt)))

abbrev key_env : Env
key_env = record env {
  runs = λ n args. record {
    stdout = codes "Private key: ab" ++ (10 ∷ (codes "Public key: cd" ++ (10 ∷ [])));
    stderr = [];
    exit = exit_ok;
  };
}

abbrev pair : Keypair
pair = record { private = codes "ab"; public = codes "cd" }

abbrev rekeyed : File
rekeyed =
    set_primary
      (with_reality (record reality { private_key = codes "ab" }) (vless_inbound (alice ∷ [])))
      with_alice

rekeyed_lem : set_private_key (codes "ab") with_alice ≡ ok (rekeyed, tt)
unfolding set_private_key primary_inbound text_eq is_vless
rekeyed_lem = refl

made : (generate key_env server.cfg.xray_bin world).0 ≡ ok pair
unfolding generate
made = refl

regenerate_lem_example :
    let w = (generate key_env server.cfg.xray_bin world).1 in
    let r =
      (rewrite key_env conf_path server.manager (λ f w. set_private_key (codes "ab") f) w).0 in
    let out = handle_regenerate_keys key_env server in
    (out.0.status ≡ (if is_ok r then 200 else 500))
    × (out.1.pub_key ≡ (if is_ok r then [] else []))
    × (out.1.world.files (named conf_path)
        ≡ (if wrote r then some (json (encode_file rekeyed)) else world.files (named conf_path)))
regenerate_lem_example =
    regenerate_lem key_env server with_alice rekeyed pair conf_holds made rekeyed_lem

abbrev keyed : Server
keyed = record server { pub_key = codes "cd" }

primary_found : primary_inbound with_alice ≡ ok (vless_inbound (alice ∷ []))
unfolding primary_inbound text_eq is_vless
primary_found = refl

private_key_hidden_example :
    collect_config env (ok with_alice) keyed ≡ collect_config env (ok rekeyed) keyed
private_key_hidden_example =
    private_key_hidden env with_alice rekeyed (vless_inbound (alice ∷ [])) reality (codes "ab")
      keyed primary_found refl refl refl refl rekeyed_lem

abbrev params : Params
params = record {
  uuid = codes "u1";
  host = codes "vpn.example.com";
  port = pos 443;
  flow = codes "x";
  name = codes "my phone";
  network = [];
  sni = codes "e.com";
  fingerprint = [];
  public_key = codes "k";
  short_id = codes "aa";
  spider_x = [];
}

params-IsText : IsText params
params-IsText = record {
  uuid = omega arith;
  host = ground arith;
  flow = omega arith;
  name = omega arith;
  network = tt;
  sni = omega arith;
  fingerprint = tt;
  public_key = omega arith;
  short_id = omega arith;
  spider_x = tt;
}

abbrev url : Text
url =
    codes
      "vless://u1@vpn.example.com:443?encryption=none&flow=x&pbk=k&security=reality&sid=aa&sni=e.com&type=tcp#my%20phone"

url_built : build_url params ≡ ok url
unfolding build_url text_eq text_lt query_escape
url_built = refl

build_url_lem_example :
    (port : ℕ) × (m : Map Text) × (pos 443 ≡ pos port)
    × (1 ≤ port)
    × (port ≤ 65535)
    × (read_link url
        ≡ some (record {
          uuid = codes "u1";
          authority = join_host_port (codes "vpn.example.com") (itoa_port port);
          values = m;
          name = codes "my phone";
        }))
    × Says params m
build_url_lem_example = build_url_lem params url params-IsText url_built

abbrev flag_on : Json
flag_on = object (
    (codes "levels", object ((codes "0", object ((codes "statsUserOnline", bool true) ∷ [])) ∷ []))
    ∷ [])

abbrev tracked : File
tracked = record with_alice { policy = some flag_on }

tracked-IsWellformed : IsWellformedFile tracked
tracked-IsWellformed = record {
  inbounds = with_alice-IsWellformed.inbounds;
  bag = with_alice-IsWellformed.bag;
}

flag_merged : merge_online_flag none ≡ changed flag_on
unfolding merge_online_flag
flag_merged = refl

abbrev turning : File → World → Result (File × Unit {0})
turning f w = enable_online f

turns : (w : World) → turning with_alice w ≡ ok (tracked, tt)
unfolding enable_online merge_online_flag
turns w = refl

tracked_written : (write_config env conf_path tracked (tick (tick world))).0 ≡ ok tt
unfolding write_config text_eq backup_if_exists install replace
tracked_written = rw (decode-encode_file tracked tracked-IsWellformed) refl

restarted : (w : World) → (restart env server.manager w).0 ≡ ok tt
unfolding restart
restarted w = refl

rewritten : (rewrite env conf_path server.manager turning (tick world)).0 ≡ ok tt
rewritten =
    rewrite_done env turning conf_path server.manager (tick world) with_alice tracked tt refl
      conf_holds (turns (tick (tick world))) tracked_written restarted

turned_now :
    (turn_online_on env (record server { world = tick world })).0 ≡ reply 200 (online_body false)
unfolding turn_online_on
turned_now =
    ground (arith, mutate_config_lem env turning (record server { world = tick world }), rewritten)

turned : (handle_enable_online_tracking env server).0 ≡ some (reply 200 (online_body false))
turned = rw (first_live env server with_alice flag_on conf_holds flag_merged refl, turned_now) refl

tracking_again_example :
    let s1 = (handle_enable_online_tracking env server).1 in
    let (a, s2) = handle_enable_online_tracking env s1 in
    (s2.world ≡ tick s1.world)
    × (a
        ≡ some (
            if env.fails s1.world.calls
            then reply_error 500 (wrap "read config" (fail "read"))
            else reply 200 (online_body true)))
tracking_again_example =
    tracking_again env server with_alice flag_on conf_holds flag_merged tracked-IsWellformed turned

abbrev alice_params : Params
alice_params = link_params keyed (vless_inbound (alice ∷ [])) alice reality (codes "cd")

abbrev alice_link : Text
alice_link = url_of alice_params 9443

link_built : build_url alice_params ≡ ok alice_link
unfolding build_url link_params url_of text_eq
link_built = refl

alice_from :
    (link_from env alice.id with_alice (record keyed { world = tick world })).0 ≡ ok alice_link
unfolding link_from public_key primary_inbound find_id is_vless text_eq
alice_from = link_built

alice_built : (build_link env alice.id keyed).0 ≡ ok alice_link
alice_built = rw (build_link_live env alice.id with_alice keyed refl refl conf_holds) alice_from

link_answered : (handle_client_link env alice.id keyed).0 ≡ reply 200 (url_body alice_link)
unfolding handle_client_link
link_answered = rw (handle_client_link, alice_built) refl

client_link_live_example :
    IsLinkOf env with_alice alice.id (record keyed { world = tick world }) alice_link
client_link_live_example =
    client_link_live env alice.id with_alice keyed alice_link conf_holds link_answered
