-- ===== src/Panel/View.antt =====
-- What a server's two files stand for, a config and a list of disabled clients, and what each
-- call that a handler makes does to it.
use flint2_xray_web_console.Base.{
  ◌≡◌, ◌≢◌, Bool, true, false, some, List, Text, text_eq, text_eq_iff, Error, ok, err, arith,
  if◌then◌else◌, All, ◌&&◌, ◌++◌, ℕ, ◌∷◌, [], All-append, none, ◌+◌, Option,
}
use flint2_xray_web_console.Base.Errors.{is_ok, Result}
use flint2_xray_web_console.Os.{Env, named, bak, tick, json, World}
use flint2_xray_web_console.Xray.Model.{File, Client}
use flint2_xray_web_console.Xray.Codec.{encode_file}
use flint2_xray_web_console.Xray.RoundTrip.{IsWellformedFile, decode-encode_file}
use flint2_xray_web_console.Xray.Disk.{parse}
use flint2_xray_web_console.Store.Format.{DisabledClient, stored}
use flint2_xray_web_console.Store.RoundTrip.{IsWellformedEntry}
use flint2_xray_web_console.Panel.Types.{Server, on_world}
use flint2_xray_web_console.Panel.Mutate.{Change, rewrite, mutate_config}
use flint2_xray_web_console.Panel.Mutate.Outcome.{
  config_of, wrote, rewrite_files, rewrite_result, rewrite_refusal, mutate_config_lem,
  restart_failed,
}
use flint2_xray_web_console.Xray.Disk.Atomic.{path-apart}
use flint2_xray_web_console.Store.Contract.{entry_at, add_contract, add_frame, remove_frame}
use flint2_xray_web_console.Xray.RoundTrip.Clients.{IsWellformed}
use flint2_xray_web_console.Store.{add, find_entry, remove_entry}
use flint2_xray_web_console.Store.Remove.{remove_contract, Removed, IsTaken, taken-wellformed}

-- The config path and the store path are different files, and neither is the other's backup.
pub record IsApart (s : Server) : Type 0 where
  pub store_conf : s.cfg.disabled_store ≢ s.conf_path
  pub store_bak : s.cfg.disabled_store ≢ bak s.conf_path
  pub conf_bak : s.conf_path ≢ bak s.cfg.disabled_store

module _ (env : Env) where
  pub record Stands (s : Server) (f : File) (ds : List DisabledClient) : Type 0 where
    pub config : config_of (s.world.files (named s.conf_path)) ≡ ok f
    pub store : stored env.is_time (s.world.files (named s.cfg.disabled_store)) ≡ ok ds
    pub wellformed : IsWellformedFile f
    pub entries : All (IsWellformedEntry env.is_time) ds
    pub paths : IsApart s

  written_config : (f : File) → IsWellformedFile f → config_of (some (json (encode_file f))) ≡ ok f
  unfolding config_of parse
  written_config f w = decode-encode_file f w

  module _ (s : Server) (f : File) (ds : List DisabledClient) (h : Stands s f ds) {A : Type 0}
      (change : Change A) where
    mutated_files :
        (f' : File) (a : A) (q : Text)
        → change f (tick s.world) ≡ ok (f', a)
        → q ≢ bak s.conf_path
        → let (r, w') = rewrite env s.conf_path s.manager change s.world in
          w'.files (named q) ≡ (
            if wrote r && text_eq s.conf_path q
            then some (json (encode_file f'))
            else s.world.files (named q))
    mutated_files f' a q changed apart =
        rewrite_files env change s.conf_path s.manager s.world f f' a q h.config changed apart

    mutated_config :
        (f' : File) (a : A)
        → change f (tick s.world) ≡ ok (f', a)
        → IsWellformedFile f'
        → let (r, w') = rewrite env s.conf_path s.manager change s.world in
          config_of (w'.files (named s.conf_path)) ≡ ok (if wrote r then f' else f)
    mutated_config f' a changed w = ground (
      arith,
      mutated_files f' a s.conf_path changed (path-apart s.conf_path),
      text_eq_iff s.conf_path s.conf_path,
      written_config f' w,
      h.config,
    )

    mutated_store :
        (f' : File) (a : A)
        → change f (tick s.world) ≡ ok (f', a)
        → let (r, w') = rewrite env s.conf_path s.manager change s.world in
          stored env.is_time (w'.files (named s.cfg.disabled_store)) ≡ ok ds
    mutated_store f' a changed =
        let p = s.cfg.disabled_store in
        ground (
          arith,
          mutated_files f' a p changed h.paths.store_bak,
          h.paths.store_conf,
          text_eq_iff s.conf_path p,
          h.store,
        )

    either : (b : Bool) (f' : File) → IsWellformedFile f' → IsWellformedFile (if b then f' else f)
    either true f' w = w
    either false f' w = h.wellformed

    -- A change that applies: afterwards the panel stands for the changed config if the call
    -- succeeded or failed in the restart, else for the old one; the store is untouched.
    pub mutate_changed :
        (f' : File) (a : A)
        → change f (tick s.world) ≡ ok (f', a)
        → IsWellformedFile f'
        → let (r, s') = mutate_config env change s in Stands s' (if wrote r then f' else f) ds
    mutate_changed f' a changed w = rw (mutate_config_lem env change s) (record {
      config = mutated_config f' a changed w;
      store = mutated_store f' a changed;
      wellformed = either _ f' w;
      entries = h.entries;
      paths = record {
        store_conf = h.paths.store_conf;
        store_bak = h.paths.store_bak;
        conf_bak = h.paths.conf_bak;
      };
    })

    -- A change that refuses: the call fails before it writes, and the panel stands for what it did.
    pub mutate_refused :
        (e : Error)
        → change f (tick s.world) ≡ err e
        → restart_failed e ≡ false
        → let (r, s') = mutate_config env change s in Stands s' f ds × (wrote r ≡ false)
    mutate_refused e refused plain =
        let (still, why) =
          rewrite_refusal env change s.conf_path s.manager s.world f e h.config refused in
        rw (mutate_config_lem env change s) (
          record {
            config = rw still h.config;
            store = rw still h.store;
            wellformed = h.wellformed;
            entries = h.entries;
            paths = record {
              store_conf = h.paths.store_conf;
              store_bak = h.paths.store_bak;
              conf_bak = h.paths.conf_bak;
            };
          },
          ground (arith, why),
        )

    -- A call that succeeds returns what the change made.
    pub mutate_result :
        (f' : File) (a b : A)
        → change f (tick s.world) ≡ ok (f', a)
        → (mutate_config env change s).0 ≡ ok b
        → b ≡ a
    mutate_result f' a b changed r =
        rewrite_result env change s.conf_path s.manager s.world f f' a b h.config changed
          (rw (mutate_config_lem env change s) at r)

  module _ (s : Server) (f : File) (ds : List DisabledClient) (h : Stands s f ds) where
    abbrev entry : Client → DisabledClient
    entry c = entry_at env s.cfg.disabled_store c s.world

    extended :
        (b : Bool) (c : Client)
        → IsWellformedEntry env.is_time (entry c)
        → All (IsWellformedEntry env.is_time) (if b then ds ++ entry c ∷ [] else ds)
    extended true c w =
        All-append (IsWellformedEntry env.is_time) ds (entry c ∷ []) h.entries (w, tt)
    extended false c w = h.entries

    -- Add extends the list of disabled clients if it succeeds, and else changes neither file.
    pub add-Stands :
        (c : Client)
        → IsWellformed c
        → ((n : ℕ) → env.is_time (env.now n) ≡ true)
        → let (r, s') = on_world (add env s.cfg.disabled_store c) s in
          Stands s' f (if is_ok r then ds ++ entry c ∷ [] else ds)
          × (is_ok r ≡ true → find_entry c.id ds ≡ none)
    add-Stands c wc prints =
        let p = s.cfg.disabled_store in
        let (extends, keeps) = add_contract env p c s.world ds h.store h.entries wc prints in
        (
          record {
            config =
                rw
                  (add_frame env p s.conf_path c s.world ds h.store h.paths.conf_bak
                    h.paths.store_conf)
                  h.config;
            store = ground (arith, extends, keeps, h.store);
            wellformed = h.wellformed;
            entries =
                extended (is_ok (add env p c s.world).0) c
                  (record { client = wc; timed = prints (s.world.calls + 1) });
            paths = record {
              store_conf = h.paths.store_conf;
              store_bak = h.paths.store_bak;
              conf_bak = h.paths.conf_bak;
            };
          },
          λ succeeded. (extends succeeded).1,
        )

    -- How Remove can end, in terms of what the panel stands for.
    abbrev pub Left : Text → Result (Option Client) × Server → Type 0
    Left id (err e, s') = Stands s' f ds
    Left id (ok none, s') = Stands s' f ds × (find_entry id ds ≡ none)
    Left id (ok (some c), s') =
        (d : DisabledClient) × (rest : List DisabledClient) × IsTaken id ds (some (d, rest))
        × (c ≡ d.client)
        × IsWellformed c
        × Stands s' f rest

    restands :
        (w' : World) (rest : List DisabledClient)
        → w'.files (named s.conf_path) ≡ s.world.files (named s.conf_path)
        → stored env.is_time (w'.files (named s.cfg.disabled_store)) ≡ ok rest
        → All (IsWellformedEntry env.is_time) rest
        → Stands (record s { world = w' }) f rest
    restands w' rest same holds wf = record {
      config = rw same h.config;
      store = holds;
      wellformed = h.wellformed;
      entries = wf;
      paths = record {
        store_conf = h.paths.store_conf;
        store_bak = h.paths.store_bak;
        conf_bak = h.paths.conf_bak;
      };
    }

    Removed-Left :
        (id : Text) (r : Result (Option Client)) (w' : World)
        → Removed env s.cfg.disabled_store id ds s.world (r, w')
        → w'.files (named s.conf_path) ≡ s.world.files (named s.conf_path)
        → Left id (r, record s { world = w' })
    Removed-Left id (err e) w' was same = restands w' ds same (rw was h.store) h.entries
    Removed-Left id (ok none) w' was same =
        (restands w' ds same (rw was.1 h.store) h.entries, was.0)
    Removed-Left id (ok (some c)) w' (d, rest, taken, made, holds) same =
        let (wd, wrest) = taken-wellformed env s.cfg.disabled_store id ds d rest taken h.entries in
        (d, rest, taken, made, rw made wd.client, restands w' rest same holds wrest)

    -- Remove takes the first entry of the UUID out of the list, and never touches the config.
    pub remove-Left : (id : Text) → Left id (on_world (remove_entry env s.cfg.disabled_store id) s)
    remove-Left id =
        let p = s.cfg.disabled_store in
        let (r, w') = remove_entry env p id s.world in
        Removed-Left id r w' (remove_contract env p id s.world ds h.store h.entries)
          (remove_frame env p s.conf_path id s.world ds h.store h.paths.conf_bak h.paths.store_conf)
