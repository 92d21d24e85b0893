-- ===== src/Panel/State.antt =====
-- GET /api/state: `collectState` and `handleState` of internal/http/state.go, for one request at a
-- time.
pub mod Secret
pub mod Flight
use flint2_xray_web_console.Base.{
  ℕ, ◌+◌, Bool, true, false, Option, none, some, List, [], ◌∷◌, ◌++◌, map, Text, Result, ok, err,
  Error, wrap, if◌then◌else◌, is_nil, is_some, not, ◌&&◌, ltb,
}
use flint2_xray_web_console.Base.Int.{ℤ, pos}
use flint2_xray_web_console.Os.{Env, World, tick}
use flint2_xray_web_console.Service.{State, status}
use flint2_xray_web_console.Store.{list}
use flint2_xray_web_console.Store.Format.{DisabledClient}
use flint2_xray_web_console.Xray.Model.{File, Inbound, RealitySettings, Client}
use flint2_xray_web_console.Xray.Clients.{primary_inbound, settings_of}
use flint2_xray_web_console.Xray.Disk.{read_config}
use flint2_xray_web_console.Panel.Types.{
  Server, StateResponse, StateEntry, ServerBlock, RealityBlock, ClientBlock, DisabledClientBlock,
  Response, reply, state_body, on_world, block,
}
use flint2_xray_web_console.Panel.Keys.{public_key}
use flint2_xray_web_console.Panel.Policy.{policy_has_online_flag}
use flint2_xray_web_console.Panel.Reality.{reality_of}
use flint2_xray_web_console.Panel.Summary.{parse_port, primary_flow}

abbrev pub no_reality : RealityBlock
no_reality = record {
  dest = [];
  server_names = [];
  short_ids = [];
  fingerprint = [];
  public_key = [];
  has_private = false;
}

abbrev pub stopped : State
stopped = record { running = false; raw = [] }

-- the answer where the config cannot be read
unfoldable pub failed_state : Server → Error → StateResponse
failed_state s e = record {
  server_address = s.cfg.server_address;
  service = stopped;
  server = record { listen = []; port = pos 0; flow = []; reality = no_reality };
  clients = [];
  disabled = [];
  stats_api_enabled = false;
  online_tracking_enabled = false;
  warnings = e ∷ [];
}

abbrev pub disabled_block : DisabledClient → DisabledClientBlock
disabled_block d = record {
  id = d.client.id;
  name = d.client.email;
  flow = d.client.flow;
  disabled_at = d.disabled_at;
}

abbrev pub has_private_key : RealitySettings → Bool
has_private_key rs = not (is_nil rs.private_key)

unfoldable pub reality_block : RealitySettings → Text → RealityBlock
reality_block rs key = record {
  dest = rs.dest;
  server_names = rs.server_names;
  short_ids = rs.short_ids;
  fingerprint = rs.fingerprint;
  public_key = key;
  has_private = has_private_key rs;
}

-- a part of the answer, its warnings, and the server after it
abbrev pub Part : Type 0 → Type 0
Part A = A × List Error × Server

-- a cached answer younger than `stateCacheTTL`, 3 seconds
unfoldable pub cached : ℕ → Option StateEntry → Option StateResponse
cached now none = none
cached now (some e) = if ltb now (e.at + 3000) then some e.payload else none

module _ (env : Env) where
  unfoldable pub collect_reality : Inbound → Server → Part RealityBlock
  unfolding reality_block public_key
  collect_reality i s = elim (reality_of i) [
    | none ↦ (no_reality, [], s)
    | some rs ↦
        if not (has_private_key rs)
        then (reality_block rs [], [], s)
        else let (r, s') = public_key env rs.private_key s in
          elim r [
            | err e ↦ (reality_block rs [], wrap "derive public key" e ∷ [], s')
            | ok key ↦ (reality_block rs key, [], s')
          ]
  ]

  unfoldable pub collect_disabled : Server → Part (List DisabledClientBlock)
  unfolding list
  collect_disabled s =
      let (r, s') = on_world (list env s.cfg.disabled_store) s in
      elim r [
        | err e ↦ ([], wrap "disabled store" e ∷ [], s')
        | ok ds ↦ (map disabled_block ds, [], s')
      ]

  unfoldable pub collect_status : Server → Part State
  unfolding status
  collect_status s =
      let (r, s') = on_world (status env s.manager) s in
      elim r [ err e ↦ (stopped, wrap "service status" e ∷ [], s') | ok st ↦ (st, [], s') ]

  -- what is collected once the Reality block is there
  unfoldable pub collect_rest : File → Inbound → Part RealityBlock → StateResponse × Server
  unfolding collect_disabled collect_status policy_has_online_flag parse_port primary_flow
  collect_rest f i (rb, w1, s1) =
      let (ds, w2, s2) = collect_disabled s1 in
      let (st, w3, s3) = collect_status s2 in
      (
        record {
          server_address = s1.cfg.server_address;
          service = st;
          server = record {
            listen = i.listen;
            port = parse_port i.port;
            flow = primary_flow i;
            reality = rb;
          };
          clients = map block (settings_of i).clients;
          disabled = ds;
          stats_api_enabled = is_some f.api && is_some f.stats;
          online_tracking_enabled = policy_has_online_flag f.policy;
          warnings = w1 ++ (w2 ++ w3);
        },
        s3,
      )

  -- what is collected once the config is read
  unfoldable pub collect_parts : File → Inbound → Server → StateResponse × Server
  unfolding collect_reality collect_rest
  collect_parts f i s = collect_rest f i (collect_reality i s)

  -- what is collected from the config that is read
  unfoldable pub collect_config : Result File → Server → StateResponse × Server
  unfolding collect_parts failed_state
  collect_config (err e) s = (failed_state s (wrap "read xray config" e), s)
  collect_config (ok f) s = elim (primary_inbound f) [
    | err e ↦ (failed_state s e, s)
    | ok i ↦ collect_parts f i s
  ]

  unfoldable pub collect_state : Server → StateResponse × Server
  unfolding collect_config read_config
  collect_state s = let (r, s') = on_world (read_config env s.conf_path) s in collect_config r s'

  -- A request that finds no refresh under way.
  unfoldable pub handle_state : Server → Response × Server
  unfolding cached collect_state
  handle_state s = elim (cached (env.clock s.world.calls) s.state_entry) [
    | some payload ↦ (reply 200 (state_body payload), record s { world = tick s.world })
    | none ↦
        let (payload, s') = collect_state (record s { world = tick s.world }) in
        (
          reply 200 (state_body payload),
          record s' {
            state_entry = some (record { payload = payload; at = env.clock s'.world.calls });
            world = tick s'.world;
          },
        )
  ]
