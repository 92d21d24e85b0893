-- ===== src/Panel/Clients/Enable.antt =====
-- POST /api/clients/{id}/enable: where the client is afterwards.
use flint2_xray_web_console.Base.{
  if◌then◌else◌, ◌≡◌, refl, true, false, none, some, List, [], ◌∷◌, ◌++◌, Text, ok, Error,
  not_found, arith, ◌⊎◌, inl, inr, All-append, ℕ, Option, Bool, subst, sym, Bool-cases,
}
use flint2_xray_web_console.Base.Errors.{Result-cases, Result, err, is_ok}
use flint2_xray_web_console.Os.{Env}
use flint2_xray_web_console.Store.{find_entry, remove_entry, add}
use flint2_xray_web_console.Store.Format.{DisabledClient}
use flint2_xray_web_console.Store.Remove.{IsTaken}
use flint2_xray_web_console.Xray.Model.{Client, Inbound, File}
use flint2_xray_web_console.Xray.Clients.{
  clients_of, find_id, primary_inbound, settings_of, with_clients, set_primary,
}
use flint2_xray_web_console.Xray.Clients.Primary.{clients_of-primary, clients_of-set_primary}
use flint2_xray_web_console.Xray.Clients.Wellformed.{
  primary-IsWellformed, set_primary-IsWellformed, with_clients-IsWellformed, settings-IsWellformed,
}
use flint2_xray_web_console.Xray.RoundTrip.{IsWellformedFile}
use flint2_xray_web_console.Xray.RoundTrip.Clients.{IsWellformed}
use flint2_xray_web_console.Panel.Types.{
  Server, Response, reply, reply_error, client_body, block, on_world,
}
use flint2_xray_web_console.Panel.Mutate.Outcome.{restart_failed, wrote}
use flint2_xray_web_console.Panel.View.{
  Stands, Left, remove-Left, mutate_refused, mutate_changed, add-Stands,
}
use flint2_xray_web_console.Panel.Clients.{restore_client, handle_enable, enable}
use flint2_xray_web_console.Panel.Mutate.{Change, mutate_config}
use flint2_xray_web_console.Panel.Clients.Refusals.{restore_client-early}
use flint2_xray_web_console.Store.Contract.{entry_at}

-- `restore_client` past `PrimaryInbound`
restored_at :
    (c : Client) (f f' : File) (i : Inbound) (u : Unit {0})
    → primary_inbound f ≡ ok i
    → restore_client c f ≡ ok (f', u)
    → (f' ≡ set_primary (with_clients ((settings_of i).clients ++ c ∷ []) i) f)
      × (find_id c.id (settings_of i).clients ≡ none)
unfolding restore_client
restored_at c f f' i u p h = ground (arith, p)

restore_primary :
    (c : Client) (f f' : File) (u : Unit {0})
    → restore_client c f ≡ ok (f', u)
    → (i : Inbound) × (primary_inbound f ≡ ok i)
unfolding restore_client
restore_primary c f f' u h = elim (Result-cases (primary_inbound f)) [
  | inl (e, p) ↦ absurd (ground (arith, p))
  | inr (i, p) ↦ (i, p)
]

-- Restoring appends the client to the config as it is, if its UUID is not there.
pub restore_client_appends :
    (c : Client) (f f' : File) (u : Unit {0})
    → restore_client c f ≡ ok (f', u)
    → (clients_of f' ≡ clients_of f ++ c ∷ []) × (find_id c.id (clients_of f) ≡ none)
restore_client_appends c f f' u h =
    let (i, p) = restore_primary c f f' u h in
    let (at, fresh) = restored_at c f f' i u p h in
    let l = (settings_of i).clients in
    ground (
      arith,
      at,
      fresh,
      clients_of-primary i f p,
      clients_of-set_primary i (with_clients (l ++ c ∷ []) i) f p refl,
    )

pub restore_client-IsWellformed :
    (c : Client) (f f' : File) (u : Unit {0})
    → restore_client c f ≡ ok (f', u)
    → IsWellformed c
    → IsWellformedFile f
    → IsWellformedFile f'
restore_client-IsWellformed c f f' u h wc wf =
    let (i, p) = restore_primary c f f' u h in
    let (at, _) = restored_at c f f' i u p h in
    let wi = primary-IsWellformed i f wf p in
    let l = (settings_of i).clients in
    rw at (
      set_primary-IsWellformed _ f
        (with_clients-IsWellformed (l ++ c ∷ []) i wi
          (All-append IsWellformed l (c ∷ []) (settings-IsWellformed i wi).clients (wc, tt)))
        wf)

module _ (env : Env) (id : Text) (f : File) (ds : List DisabledClient) where
  -- The config with this client appended, which was not there before.
  pub record Regained (c : Client) (file : File) : Type 0 where
    pub appended : clients_of file ≡ clients_of f ++ c ∷ []
    pub fresh : find_id c.id (clients_of f) ≡ none

  -- The first entry of the UUID, and the store without it.
  pub record Taken : Type 0 where
    pub entry : DisabledClient
    pub rest : List DisabledClient
    pub taken : IsTaken id ds (some (entry, rest))

  -- The client came out of the store, and the call then failed with the server as it is `before`:
  -- the config has the client only if the failure was the restart's. The rollback adds the client
  -- to the store, which has it again at its end, if that succeeds, and is without it, if that
  -- fails.
  pub record Failed (s' : Server) (e : Error) : Type 0 where
    pub from : Taken
    pub file : File
    pub before : Server
    pub config :
        (restart_failed e ≡ false) × (file ≡ f)
        ⊎ (restart_failed e ≡ true) × Regained from.entry.client file
    pub stood : Stands env before file from.rest
    pub undone : s' ≡ (on_world (add env before.cfg.disabled_store from.entry.client) before).1
    pub store :
        (is_ok (add env before.cfg.disabled_store from.entry.client before.world).0 ≡ true)
          × (find_entry from.entry.client.id from.rest ≡ none)
          × ((at : Text) × Stands env s' file
                (from.rest ++ record { client = from.entry.client; disabled_at = at } ∷ []))
        ⊎ (is_ok (add env before.cfg.disabled_store from.entry.client before.world).0 ≡ false)
          × Stands env s' file from.rest

  abbrev pub Enabled : Response × Server → Type 0
  Enabled (resp, s') =
      ((from : Taken) × (file : File) × (resp ≡ reply 200 (client_body (block from.entry.client)))
        × Regained from.entry.client file
        × Stands env s' file from.rest)
      ⊎ ((resp ≡ reply_error 404 (not_found id)) × (find_entry id ds ≡ none) × Stands env s' f ds)
      ⊎ ((e : Error) × (resp ≡ reply_error 500 e) × Stands env s' f ds)
      ⊎ ((e : Error) × (resp ≡ reply_error 500 e) × Failed s' e)

  -- the end of `handle_enable`'s success path, and its rollback
  abbrev respond : Client → Result (Unit {0}) × Server → Response × Server
  respond c (r, s') = elim r [
    | err e ↦ (reply_error 500 e, (on_world (add env s'.cfg.disabled_store c) s').1)
    | ok _ ↦ (reply 200 (client_body (block c)), s')
  ]

  abbrev dispatch : Result (Option Client) × Server → Response × Server
  dispatch (r, s') = elim r [
    | err e ↦ (reply_error 500 e, s')
    | ok o ↦ elim o [ none ↦ (reply_error 404 (not_found id), s') | some c ↦ enable env c s' ]
  ]

  module _ (prints : (n : ℕ) → env.is_time (env.now n) ≡ true) where
    back_in :
        (b : Bool) (file : File) (s' : Server) (t : Taken) (d : DisabledClient)
        → d.client ≡ t.entry.client
        → Stands env s' file (if b then t.rest ++ d ∷ [] else t.rest)
        → (b ≡ true → find_entry t.entry.client.id t.rest ≡ none)
        → (b ≡ true)
            × (find_entry t.entry.client.id t.rest ≡ none)
            × ((at : Text) × Stands env s' file
                  (t.rest ++ record { client = t.entry.client; disabled_at = at } ∷ []))
          ⊎ (b ≡ false) × Stands env s' file t.rest
    back_in true file s' t d same st fresh = inl (
      refl,
      fresh refl,
      (
        d.disabled_at,
        subst
            (λ c.
              Stands env s' file
                (t.rest ++ record { client = c; disabled_at = d.disabled_at } ∷ []))
            same st,
      ),
    )
    back_in false file s' t d same st fresh = inr (refl, st)

    rolled_back :
        (t : Taken) (e : Error) (s' : Server) (file : File)
        → (restart_failed e ≡ false) × (file ≡ f)
          ⊎ (restart_failed e ≡ true) × Regained t.entry.client file
        → IsWellformed t.entry.client
        → Stands env s' file t.rest
        → Failed (on_world (add env s'.cfg.disabled_store t.entry.client) s').1 e
    rolled_back t e s' file config w st =
        let c = t.entry.client in
        record {
          from = t;
          file = file;
          before = s';
          config = config;
          stood = st;
          undone = refl;
          store =
              back_in (is_ok (add env s'.cfg.disabled_store c s'.world).0) file
                (on_world (add env s'.cfg.disabled_store c) s').1 t
                (entry_at env s'.cfg.disabled_store c s'.world) refl
                (add-Stands env s' file t.rest st c w prints).0
                (add-Stands env s' file t.rest st c w prints).1;
        }

    answered :
        (t : Taken) (f' : File) (r : Result (Unit {0})) (s' : Server)
        → Regained t.entry.client f'
        → IsWellformed t.entry.client
        → Stands env s' (if wrote r then f' else f) t.rest
        → Enabled (respond t.entry.client (r, s'))
    answered t f' (ok _) s' got w st = inl (t, f', refl, got, st)
    answered t f' (err e) s' got w st = inr (
        inr (
          inr (
            e,
            refl,
            elim (Bool-cases (restart_failed e)) [
              | inl late ↦
                  rolled_back t e s' f' (inr (late, got)) w
                    (subst (λ b. Stands env s' (if b then f' else f) t.rest) late st)
              | inr early ↦
                  rolled_back t e s' f (inl (early, refl)) w
                    (subst (λ b. Stands env s' (if b then f' else f) t.rest) early st)
            ],
          )))

    refused :
        (t : Taken) (r : Result (Unit {0})) (s' : Server)
        → IsWellformed t.entry.client
        → Stands env s' f t.rest
        → wrote r ≡ false
        → Enabled (respond t.entry.client (r, s'))
    refused t (ok _) s' w st early = cc
    refused t (err e) s' w st early =
        inr (inr (inr (e, refl, rolled_back t e s' f (inl (early, refl)) w st)))

    restored :
        (t : Taken) (s : Server)
        → IsWellformed t.entry.client
        → Stands env s f t.rest
        → Enabled (enable env t.entry.client s)
    unfolding enable
    restored t s w h =
        let c = t.entry.client in
        let change : Change (Unit {0}) = λ g w. restore_client c g in
        let r = (mutate_config env change s).0 in
        let s' = (mutate_config env change s).1 in
        elim (Result-cases (restore_client c f)) [
          | inl (e, kept) ↦
              let (st, early) =
                mutate_refused env s f t.rest h change e kept (restore_client-early c f e kept) in
              refused t r s' w st early
          | inr ((f', u), put_back) ↦
              let (appended, fresh) = restore_client_appends c f f' u put_back in
              answered t f' r s' (record { appended = appended; fresh = fresh }) w
                (mutate_changed env s f t.rest h change f' u put_back
                  (restore_client-IsWellformed c f f' u put_back w h.wellformed))
        ]

    dispatched :
        (s : Server) (h : Stands env s f ds) (r : Result (Option Client)) (s' : Server)
        → Left env s f ds h id (r, s')
        → Enabled (dispatch (r, s'))
    dispatched s h (err e) s' st = inr (inr (inl (e, refl, st)))
    dispatched s h (ok none) s' (st, gone) = inr (inl (refl, gone, st))
    dispatched s h (ok (some c)) s' (d, rest, taken, made, w, st) =
        subst (λ x. Enabled (enable env x s')) (sym made)
          (restored (record { entry = d; rest = rest; taken = taken }) s'
            (subst IsWellformed made w) st)

    -- Where the two files stand for a config and a store, and the clock prints times that can be
    -- read: enabling a client either answers 200, and the first stored client of the UUID has moved
    -- from the store to the end of the config, which had no client of that UUID; or it answers 404,
    -- the store has no such client and both files stand for what they did; or it answers 500 and
    -- both files stand for what they did; or it answers 500, the client came out of the store and
    -- the config is the old one or, after a failed restart, the one with the client. In this case
    -- the last thing done is the rollback, an Add of the client: if it succeeds, the store has the
    -- client again, at its end, and had no other of its UUID; if it fails, the store is without it.
    pub enable_outcome : (s : Server) → Stands env s f ds → Enabled (handle_enable env id s)
    unfolding handle_enable
    enable_outcome s h =
        let (r, s') = on_world (remove_entry env s.cfg.disabled_store id) s in
        dispatched s h r s' (remove-Left env s f ds h id)
