-- ===== src/Tests/Samples.antt =====
-- A panel to try the theorems on: a config with an API inbound and a VLESS inbound of one client,
-- a store with one disabled client, and a system on which every call succeeds.
use flint2_xray_web_console.Base.{none, some, List, [], ◌∷◌, Text, codes, false, true, Option}
use flint2_xray_web_console.Base.Int.{ℤ}
use flint2_xray_web_console.Json.{int, str}
use flint2_xray_web_console.Os.{Env, World, FilePath, Content, named, json, put, exit_ok}
use flint2_xray_web_console.Store.Format.{DisabledClient, encode_store}
use flint2_xray_web_console.Xray.Model.{Client, RealitySettings, StreamSettings, Inbound, File}
use flint2_xray_web_console.Xray.Codec.{encode_file}
use flint2_xray_web_console.Service.{Manager}
use flint2_xray_web_console.Panel.Types.{Config, Server}

abbrev pub flow : Text
flow = codes "xtls-rprx-vision"

abbrev pub alice : Client
alice = record {
  id = codes "u1";
  flow = flow;
  email = codes "alice";
  level = some (ℤ.pos 0);
  extra = (codes "encryption", str (codes "none")) ∷ [];
}

abbrev pub bob : Client
bob = record { id = codes "u2"; flow = flow; email = codes "bob"; level = none; extra = [] }

abbrev pub dave : DisabledClient
dave = record {
  client = record { id = codes "u4"; flow = []; email = codes "dave"; level = none; extra = [] };
  disabled_at = codes "2024-01-01T00:00:00Z";
}

abbrev pub reality : RealitySettings
reality = record {
  show = false;
  dest = codes "example.com:443";
  xver = some (ℤ.pos 0);
  server_names = codes "example.com" ∷ [];
  private_key = codes "secret";
  short_ids = codes "aa" ∷ [];
  fingerprint = codes "chrome";
  extra = [];
}

abbrev pub stream : StreamSettings
stream = record {
  network = codes "tcp";
  security = codes "reality";
  reality_settings = some reality;
  tls_settings = none;
  extra = [];
}

abbrev pub api_inbound : Inbound
api_inbound = record {
  listen = codes "127.0.0.1";
  port = some (int (ℤ.pos 10085));
  protocol = codes "dokodemo-door";
  tag = codes "api";
  settings = none;
  stream_settings = none;
  sniffing = none;
  extra = (codes "allocate", str (codes "always")) ∷ [];
}

abbrev pub vless_inbound : List Client → Inbound
vless_inbound l = record {
  listen = codes "0.0.0.0";
  port = some (int (ℤ.pos 9443));
  protocol = codes "vless";
  tag = [];
  settings = some (record { decryption = codes "none"; clients = l; extra = [] });
  stream_settings = some stream;
  sniffing = none;
  extra = [];
}

abbrev pub config : List Client → File
config l = record {
  log = some (str (codes "warning"));
  dns = none;
  routing = none;
  policy = none;
  api = none;
  stats = none;
  inbounds = some (api_inbound ∷ vless_inbound l ∷ []);
  outbounds = [];
  extra = (codes "transport", str (codes "ws")) ∷ [];
}

abbrev pub conf_path : Text
conf_path = codes "/etc/xray/config.json"

abbrev pub store_path : Text
store_path = codes "/etc/xray/disabled.json"

abbrev pub env : Env
env = record {
  fails = λ n. false;
  torn = λ n. none;
  runs = λ n args. record { stdout = []; stderr = []; exit = exit_ok };
  clock = λ n. n;
  now = λ n. codes "2024-05-01T00:00:00Z";
  is_time = λ s. true;
  uuid = λ n. some (codes "u2");
}

abbrev pub files : FilePath → Option Content
files =
    put (named conf_path) (some (json (encode_file (config (alice ∷ [])))))
      (put (named store_path) (some (json (encode_store (dave ∷ [])))) (λ p. none))

abbrev pub world : World
world = record { files = files; temps = 0; calls = 0; executed = [] }

abbrev pub manager : Manager
manager = record {
  init_script = codes "/etc/init.d/xray";
  xray_bin = codes "/usr/bin/xray";
  config_path = conf_path;
}

abbrev pub settings : Config
settings = record {
  listen = codes "127.0.0.1:8080";
  server_address = codes "vpn.example.com";
  xray_config = conf_path;
  xray_bin = codes "/usr/bin/xray";
  xray_init = codes "/etc/init.d/xray";
  log_error = [];
  log_access = [];
  stats_api = [];
  disabled_store = store_path;
  auth = record { username = codes "admin"; password_bcrypt = codes "$2a$10$x" };
}

abbrev pub server : Server
server = record {
  cfg = settings;
  manager = manager;
  conf_path = conf_path;
  panel_config_path = [];
  pub_key = [];
  activity = none;
  state_entry = none;
  world = world;
}
