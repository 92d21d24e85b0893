-- ===== src/Tests/Facts.antt =====
-- What is so of the sample panel.
use flint2_xray_web_console.Json.Decode.{decode_map}
use flint2_xray_web_console.Base.{
  ◌≡◌, ◌≢◌, refl, true, false, some, List, [], ◌∷◌, Text, codes, text_eq, text_eq_iff, ok, arith,
  All, none,
}
use flint2_xray_web_console.Base.Bytes.{fold_eq, text_lt}
use flint2_xray_web_console.Json.Extra.Bag.{folds_into}
use flint2_xray_web_console.Xray.Model.{Client, File}
use flint2_xray_web_console.Xray.RoundTrip.{IsWellformedFile, decode-encode_file}
use flint2_xray_web_console.Xray.RoundTrip.Clients.{IsWellformed}
use flint2_xray_web_console.Base.Int.{ℤ}
use flint2_xray_web_console.Tests.Samples.{
  reality, vless_inbound, alice, bob, dave, config, env, server, world, conf_path, store_path, flow,
  vless_inbound,
}
use flint2_xray_web_console.Xray.Disk.{write_config, backup_if_exists, install, replace, parse}
use flint2_xray_web_console.Panel.View.{Stands}
use flint2_xray_web_console.Os.{named, bak, json}
use flint2_xray_web_console.Panel.Mutate.Outcome.{config_of}
use flint2_xray_web_console.Store.RoundTrip.{IsWellformedEntry, stored-encode_store}
use flint2_xray_web_console.Xray.Clients.{
  is_vless, clients_of, remove_client, add_client, primary_inbound, name_taken, set_primary,
  find_client, find_id,
}
use flint2_xray_web_console.Store.Format.{stored, encode_store}
use flint2_xray_web_console.Base.Errors.{is_ok}
use flint2_xray_web_console.Xray.Disk.Atomic.{path-apart}
use flint2_xray_web_console.Xray.Codec.{encode_file}
use flint2_xray_web_console.Xray.Clients.Names.{HasDistinctNames}
use flint2_xray_web_console.Panel.Reality.{
  RealityPatch, patch_reality, with_reality, patch_settings,
}
use flint2_xray_web_console.Panel.Policy.{
  merge_online_flag, object, child, online, is_true, set_flag, changed,
}
use flint2_xray_web_console.Json.{Json, int, bool}
use flint2_xray_web_console.Json.Map.{from_entries, lookup, insert, from_entries, has}
use flint2_xray_web_console.Activity.History.{IsTimed}
use flint2_xray_web_console.Panel.Stats.{
  enable_stats, api_block, has_api_tag, policy_block, merge_routing_rule, api_rule, api_inbound_at,
}
use flint2_xray_web_console.Activity.{Sighting}
use flint2_xray_web_console.Panel.Clients.{patch_client}
use flint2_xray_web_console.Panel.Clients.Requests.{PatchRequest}
use flint2_xray_web_console.Base.Strings.{is_space}

-- Two texts that differ under `text_eq` differ.
apart : (s t : Text) → text_eq s t ≡ false → s ≢ t
apart s t h e = ground (arith, text_eq_iff s t)

pub alice-IsWellformed : IsWellformed alice
unfolding folds_into fold_eq
alice-IsWellformed = record { level_fits = refl; bag = ((tt, tt), (refl, tt)) }

pub bob-IsWellformed : IsWellformed bob
bob-IsWellformed = record { level_fits = tt; bag = (tt, tt) }

pub clients-IsWellformed : (l : List Client) → All IsWellformed l → IsWellformedFile (config l)
unfolding folds_into fold_eq
clients-IsWellformed l h = record {
  inbounds = (
    record { settings = tt; stream = tt; bag = ((tt, tt), (refl, tt)) },
    (
      record {
        settings = record { clients = h; bag = (tt, tt) };
        stream = record { reality = record { xver_fits = refl; bag = (tt, tt) }; bag = (tt, tt) };
        bag = (tt, tt);
      },
      tt,
    ),
  );
  bag = ((tt, tt), (refl, tt));
}

-- the sample config with alice
abbrev pub with_alice : File
with_alice = config (alice ∷ [])

abbrev pub with_both : File
with_both = config (alice ∷ bob ∷ [])

pub with_alice-IsWellformed : IsWellformedFile with_alice
with_alice-IsWellformed = clients-IsWellformed (alice ∷ []) (alice-IsWellformed, tt)

pub with_both-IsWellformed : IsWellformedFile with_both
with_both-IsWellformed =
    clients-IsWellformed (alice ∷ bob ∷ []) (alice-IsWellformed, (bob-IsWellformed, tt))

pub dave-IsWellformed : All (IsWellformedEntry env.is_time) (dave ∷ [])
dave-IsWellformed =
    (record { client = record { level_fits = tt; bag = (tt, tt) }; timed = refl }, tt)

pub added : add_client (some (codes "u2")) (codes "bob") flow with_alice ≡ ok (with_both, bob)
unfolding add_client text_eq is_vless
added = refl

pub removed : remove_client (codes "u1") with_both ≡ ok (config (bob ∷ []), alice)
unfolding remove_client text_eq is_vless
removed = refl

pub distinct_names : HasDistinctNames (clients_of with_alice)
unfolding clients_of primary_inbound text_eq name_taken is_vless
distinct_names = (refl, tt)

pub both_distinct_names : HasDistinctNames (clients_of with_both)
unfolding clients_of primary_inbound text_eq name_taken is_vless
both_distinct_names = (refl, (refl, tt))

pub conf_ne_bak : conf_path ≢ bak conf_path
conf_ne_bak = path-apart conf_path

pub store_ne_conf_bak : store_path ≢ bak conf_path
unfolding text_eq
store_ne_conf_bak = apart store_path (bak conf_path) refl

pub conf_ne_store_bak : conf_path ≢ bak store_path
unfolding text_eq
conf_ne_store_bak = apart conf_path (bak store_path) refl

pub store_ne_conf : store_path ≢ conf_path
unfolding text_eq
store_ne_conf = apart store_path conf_path refl

pub conf_file : world.files (named conf_path) ≡ some (json (encode_file with_alice))
unfolding text_eq
conf_file = refl

pub store_file : world.files (named store_path) ≡ some (json (encode_store (dave ∷ [])))
unfolding text_eq
store_file = refl

pub conf_holds : config_of (world.files (named conf_path)) ≡ ok with_alice
unfolding config_of parse
conf_holds = rw conf_file (decode-encode_file with_alice with_alice-IsWellformed)

pub store_holds : stored env.is_time (world.files (named store_path)) ≡ ok (dave ∷ [])
store_holds = rw store_file (stored-encode_store env.is_time (dave ∷ []) dave-IsWellformed)

pub stands : Stands env server with_alice (dave ∷ [])
stands = record {
  config = conf_holds;
  store = store_holds;
  wellformed = with_alice-IsWellformed;
  entries = dave-IsWellformed;
  paths = record {
    store_conf = store_ne_conf;
    store_bak = store_ne_conf_bak;
    conf_bak = conf_ne_store_bak;
  };
}

pub written : is_ok (write_config env conf_path with_both world).0 ≡ true
unfolding write_config text_eq backup_if_exists install replace
written = rw (decode-encode_file with_both with_both-IsWellformed) refl

-- a policy that keeps traffic statistics, and has a member that the panel does not know
abbrev pub policy : Json
policy = object (
    (codes "levels", object ((codes "0", object ((codes "handshake", int (ℤ.pos 4)) ∷ [])) ∷ []))
    ∷ (codes "system", object [])
    ∷ [])

abbrev pub policy_on : Json
policy_on = object (
    (
      codes "levels",
      object (
          (
            codes "0",
            object ((codes "handshake", int (ℤ.pos 4)) ∷ (codes "statsUserOnline", bool true) ∷ []),
          )
          ∷ []),
    )
    ∷ (codes "system", object [])
    ∷ [])

pub merged : merge_online_flag (some policy) ≡ changed policy_on
unfolding merge_online_flag child decode_map online is_true set_flag lookup insert from_entries has
    text_eq text_lt
merged = refl

abbrev pub patch : RealityPatch
patch = record {
  dest = none;
  server_names = none;
  short_ids = some (codes "beef" ∷ []);
  fingerprint = none;
}

abbrev pub patched : File
patched =
    set_primary (with_reality (patch_settings patch reality) (vless_inbound (alice ∷ [])))
      with_alice

pub patched_lem : patch_reality patch with_alice ≡ ok (patched, tt)
unfolding patch_reality primary_inbound text_eq is_vless
patched_lem = refl

-- alice sent 10 bytes, then nothing; the last poll is five minutes after the first
abbrev pub first_poll : Sighting
first_poll = record { at = 100; email = codes "alice"; total = ℤ.pos 10; online = false }

abbrev pub last_poll : Sighting
last_poll = record { at = 300100; email = codes "alice"; total = ℤ.pos 10; online = false }

pub polls-IsTimed : IsTimed last_poll.at (first_poll ∷ [])
polls-IsTimed = (ground arith, tt)

abbrev pub host : Text
host = codes "127.0.0.1"

abbrev pub port : ℤ
port = ℤ.pos 10085

abbrev pub bare : File
bare = record with_alice { inbounds = some (vless_inbound (alice ∷ []) ∷ []) }

abbrev pub with_stats : File
with_stats = record bare {
  api = some api_block;
  stats = some (object []);
  policy = some policy_block;
  routing = some (merge_routing_rule none api_rule);
  inbounds = some (api_inbound_at host port ∷ vless_inbound (alice ∷ []) ∷ []);
}

pub stats_enabled : enable_stats host port bare ≡ ok (with_stats, tt)
unfolding enable_stats has_api_tag text_eq
stats_enabled = refl

abbrev pub rename : PatchRequest
rename = record { name = some (codes " carol "); flow = none }

abbrev pub carol : Client
carol = record alice { email = codes "carol" }

pub alice_renamed : patch_client (codes "u1") rename with_alice ≡ ok (config (carol ∷ []), carol)
unfolding patch_client find_client find_id primary_inbound is_vless text_eq is_space set_primary
alice_renamed = refl

pub flow_ne_nil : flow ≢ []
flow_ne_nil e = cc
