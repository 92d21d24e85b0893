-- ===== src/Tests.antt =====
-- The theorems of the library at concrete inputs.
mod Samples
mod Facts
mod Logs
mod Stats
mod Access
mod State
mod Keys
use flint2_xray_web_console.Json.Decode.{decode_map}
use flint2_xray_web_console.Base.{
  ◌≡◌, refl, true, false, none, some, List, [], ◌∷◌, ◌++◌, Text, codes, text_eq, ok, err,
  if◌then◌else◌, ◌&&◌, is_some, ℕ, ◌↔◌, is_nil, All,
}
use flint2_xray_web_console.Tests.Samples.{
  config, alice, bob, dave, env, server, world, conf_path, store_path, flow, manager, vless_inbound,
}
use flint2_xray_web_console.Tests.Facts.{
  flow_ne_nil, rename, carol, alice_renamed, first_poll, last_poll, polls-IsTimed, host, port, bare,
  with_stats, stats_enabled, policy, policy_on, patch, patched, patched_lem, merged, with_alice,
  with_both, with_alice-IsWellformed, with_both-IsWellformed, stands, written, added, removed,
  distinct_names, both_distinct_names, conf_file, store_file, conf_holds, store_holds,
  dave-IsWellformed, conf_ne_bak, store_ne_conf_bak, conf_ne_store_bak, bob-IsWellformed, policy_on,
  patched, merged, patch, patched_lem,
}
use flint2_xray_web_console.Xray.Clients.Rewritten.{Rewritten}
use flint2_xray_web_console.Panel.Mutate.{rewrite, Change}
use flint2_xray_web_console.Xray.Codec.{decode_file, encode_file}
use flint2_xray_web_console.Panel.Clients.Create.{Ended, create_outcome}
use flint2_xray_web_console.Xray.Disk.{read_config, write_config}
use flint2_xray_web_console.Panel.Clients.Calm.{IsListed, IsUnstored, disable_works}
use flint2_xray_web_console.Panel.Clients.Disable.{Disabled, disable_outcome}
use flint2_xray_web_console.Panel.Clients.Enable.{Enabled, enable_outcome}
use flint2_xray_web_console.Panel.Clients.{
  handle_create, handle_disable, handle_enable, handle_delete, set_client,
}
use flint2_xray_web_console.Xray.Model.{
  Client, Inbound, RealitySettings, Settings, StreamSettings, File,
}
use flint2_xray_web_console.Os.{Content, named, bak, json}
use flint2_xray_web_console.Xray.Disk.Atomic.{
  read_written, write_config_atomic, write_config_backup,
}
use flint2_xray_web_console.Base.Errors.{is_ok}
use flint2_xray_web_console.Panel.Mutate.Outcome.{wrote, rewrite_files}
use flint2_xray_web_console.Xray.RoundTrip.{decode-encode_file, IsWellformedFile}
use flint2_xray_web_console.Xray.Clients.{
  add_client, clients_of, primary_inbound, remove_client, find_client, new_client, name_taken,
  find_id,
}
use flint2_xray_web_console.Store.{add, write, remove_entry, find_entry}
use flint2_xray_web_console.Store.Format.{stored, encode_store}
use flint2_xray_web_console.Xray.Clients.Names.{
  HasDistinctNames, add_client-HasDistinctNames, remove_client-HasDistinctNames,
}
use flint2_xray_web_console.Service.{test_command, init_command, restart}
use flint2_xray_web_console.Store.Remove.{Removed, remove_contract}
use flint2_xray_web_console.Xray.RoundTrip.Clients.{IsWellformed}
use flint2_xray_web_console.Xray.Clients.Wellformed.{
  add_client-IsWellformed, remove_client-IsWellformed,
}
use flint2_xray_web_console.Store.Contract.{Holds, entry_at, add_contract}
use flint2_xray_web_console.Service.Guard.{succeeded, restart_guarded}
use flint2_xray_web_console.Store.RoundTrip.{stored-encode_store}
use flint2_xray_web_console.Xray.Clients.Primary.{add_client_appends, add_client_succeeds}
use flint2_xray_web_console.Store.Atomic.{write_atomic}
use flint2_xray_web_console.Xray.Clients.Remove.{remove_client_succeeds, remove_client_splits}
use flint2_xray_web_console.Panel.Policy.Merge.{
  is_unchanged, merge_skips, merge_turns_on, Updated, merge_updates,
}
use flint2_xray_web_console.Panel.Policy.{object, policy_has_online_flag, merge_online_flag, child}
use flint2_xray_web_console.Json.Map.{Map}
use flint2_xray_web_console.Panel.Actions.{handle_service_restart}
use flint2_xray_web_console.Panel.Actions.Guard.{ran, handle_service_restart_lem}
use flint2_xray_web_console.Json.{Json, str}
use flint2_xray_web_console.Panel.Reality.{reality_of, patch_settings}
use flint2_xray_web_console.Panel.Reality.Outcome.{patch_reality_lem, Repatched}
use flint2_xray_web_console.Activity.{observe}
use flint2_xray_web_console.Panel.Stats.Enable.{rules_of, merge_routing_rule_lem, enable_stats_lem}
use flint2_xray_web_console.Panel.Stats.{merge_routing_rule, api_rule, enable_stats}
use flint2_xray_web_console.Activity.History.{run, recently, observe_lem}
use flint2_xray_web_console.Panel.Clients.Delete.{Deleted, delete_outcome}
use flint2_xray_web_console.Panel.Clients.Patch.{Revised, patch_client_lem}
use flint2_xray_web_console.Panel.Summary.{primary_flow, HaveFlow, primary_flow-HaveFlow}
use flint2_xray_web_console.Panel.Types.{reply, status_body}

-- every time that the sample system prints is one

prints : (n : ℕ) → env.is_time (env.now n) ≡ true
prints n = refl

disable_outcome_example :
    Disabled env (codes "u1") with_alice (dave ∷ []) (handle_disable env (codes "u1") server)
disable_outcome_example =
    disable_outcome env (codes "u1") with_alice (dave ∷ []) prints server stands

enable_outcome_example :
    Enabled env (codes "u4") with_alice (dave ∷ []) (handle_enable env (codes "u4") server)
enable_outcome_example = enable_outcome env (codes "u4") with_alice (dave ∷ []) prints server stands

-- bob's name with a space before it, and no flow
abbrev bob_body : Content
bob_body = json (object ((codes "name", str (codes " bob")) ∷ []))

create_outcome_example :
    Ended env with_alice (dave ∷ []) bob_body server (handle_create env bob_body server)
create_outcome_example = create_outcome env with_alice (dave ∷ []) bob_body server stands

abbrev add_bob : Change Client
add_bob f w = add_client (env.uuid w.calls) (codes "bob") flow f

rewrite_files_example :
    let r = rewrite env conf_path manager add_bob world in
    r.1.files (named store_path) ≡ (
      if wrote r.0 && text_eq conf_path store_path
      then some (json (encode_file with_both))
      else world.files (named store_path))
rewrite_files_example =
    rewrite_files env add_bob conf_path manager world with_alice with_both bob store_path conf_holds
      added store_ne_conf_bak

decode-encode_file_example : decode_file (encode_file with_both) ≡ ok with_both
decode-encode_file_example = decode-encode_file with_both with_both-IsWellformed

write_config_atomic_example :
    let r = write_config env conf_path with_both world in
    r.1.files (named conf_path) ≡ (
      if is_ok r.0 && text_eq conf_path conf_path
      then some (json (encode_file with_both))
      else world.files (named conf_path))
write_config_atomic_example =
    write_config_atomic env conf_path conf_path with_both world conf_ne_bak

add_contract_example :
    let r = add env store_path bob world in
    (is_ok r.0 ≡ true
      → Holds env store_path r.1 ((dave ∷ []) ++ entry_at env store_path bob world ∷ [])
        × (find_entry bob.id (dave ∷ []) ≡ none))
    × (is_ok r.0 ≡ false → r.1.files (named store_path) ≡ world.files (named store_path))
add_contract_example =
    add_contract env store_path bob world (dave ∷ []) store_holds dave-IsWellformed bob-IsWellformed
      prints

remove_contract_example :
    Removed env store_path
      (codes "u4")
      (dave ∷ [])
      world
      (remove_entry env store_path (codes "u4") world)
remove_contract_example =
    remove_contract env store_path (codes "u4") world (dave ∷ []) store_holds dave-IsWellformed

write_atomic_example :
    let r = write env store_path [] world in
    r.1.files (named conf_path) ≡ (
      if is_ok r.0 && text_eq store_path conf_path
      then some (json (encode_store []))
      else world.files (named conf_path))
write_atomic_example = write_atomic env store_path conf_path [] world conf_ne_store_bak

add_client_appends_example :
    (clients_of with_both ≡ clients_of with_alice ++ bob ∷ [])
    × (some (codes "u2") ≡ some bob.id)
    × (bob ≡ new_client bob.id (codes "bob") flow)
    × (name_taken (codes "bob") (clients_of with_alice) ≡ false)
add_client_appends_example =
    add_client_appends (some (codes "u2")) (codes "bob") flow with_alice with_both bob added

add_client-HasDistinctNames_example : HasDistinctNames (clients_of with_both)
add_client-HasDistinctNames_example =
    add_client-HasDistinctNames (some (codes "u2")) (codes "bob") flow with_alice with_both bob
      added distinct_names

restart_guarded_example :
    let test = test_command manager manager.config_path in
    let script = init_command manager (codes "restart") in
    let accepted = succeeded (env.runs 0 test).exit in
    let r = restart env manager world in
    (r.1.executed ≡ (if accepted then script ∷ test ∷ [] else test ∷ []))
    × (is_ok r.0 ≡ (if accepted then succeeded (env.runs 1 script).exit else false))
    × (r.1.files ≡ world.files)
restart_guarded_example = restart_guarded env manager world

merge_updates_example :
    (root : Map Json) × (levels : Map Json) × (level0 : Map Json) × (decode_map policy
      ≡ ok (some root))
    × (child (codes "levels") (some root) ≡ ok (some levels))
    × (child (codes "0") (some levels) ≡ ok (some level0))
    × Updated root levels level0 policy_on
merge_updates_example = merge_updates policy policy_on merged

patch_reality_lem_example :
    (i : Inbound) × (t : StreamSettings) × (was : RealitySettings) × (new : RealitySettings)
    × (primary_inbound with_alice ≡ ok i)
    × (i.stream_settings ≡ some t)
    × (t.reality_settings ≡ some was)
    × Repatched patch was new
    × Rewritten with_alice patched i
        (record i { stream_settings = some (record t { reality_settings = some new }) })
    × (clients_of patched ≡ clients_of with_alice)
patch_reality_lem_example = patch_reality_lem patch with_alice patched tt patched_lem

observe_lem_example :
    (observe last_poll (run (first_poll ∷ []))).0
    ≡ recently last_poll.at last_poll.email (last_poll ∷ first_poll ∷ [])
observe_lem_example = observe_lem last_poll (first_poll ∷ []) polls-IsTimed

enable_stats_lem_example :
    (clients_of with_stats ≡ clients_of bare)
    × (with_stats.extra ≡ bare.extra)
    × (rules_of with_stats.routing ≡ rules_of bare.routing ++ api_rule ∷ [])
    × (policy_has_online_flag with_stats.policy ≡ true)
    × (is_ok (enable_stats host port with_stats) ≡ false)
enable_stats_lem_example = enable_stats_lem host host port port bare with_stats tt stats_enabled

delete_outcome_example :
    Deleted env (codes "u1") with_alice (dave ∷ []) (handle_delete env (codes "u1") server)
delete_outcome_example = delete_outcome env (codes "u1") with_alice (dave ∷ []) server stands

patch_client_lem_example :
    (i : Inbound) × (st : Settings) × (was : Client) × (before : List Client) × (after : List
      Client)
    × (primary_inbound with_alice ≡ ok i)
    × (i.settings ≡ some st)
    × (st.clients ≡ before ++ was ∷ after)
    × All (λ (d : Client). text_eq d.id (codes "u1") ≡ false) before
    × (text_eq was.id (codes "u1") ≡ true)
    × Revised (codes "u1") rename st.clients was carol
    × Rewritten with_alice
        (config (carol ∷ []))
        i
        (record i { settings = some (record st { clients = before ++ carol ∷ after }) })
patch_client_lem_example =
    patch_client_lem (codes "u1") rename with_alice (config (carol ∷ [])) carol alice_renamed

obeys : (n : ℕ) (args : List Text) → succeeded (env.runs n args).exit ≡ true
obeys n args = refl

disable_works_example :
    ((handle_disable env (codes "u1") server).0 ≡ reply 200 (status_body (codes "disabled")))
    ↔ (IsListed (codes "u1") (clients_of with_alice) × IsUnstored (codes "u1") (dave ∷ []))
disable_works_example =
    disable_works env (λ n. refl) obeys (codes "u1") server with_alice (dave ∷ []) stands prints
