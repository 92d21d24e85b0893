-- ===== src/Panel/Clients/Disable.antt =====
-- POST /api/clients/{id}/disable: where the client is afterwards.
use flint2_xray_web_console.Base.{
  none, ◌≡◌, refl, ℕ, true, false, List, [], ◌∷◌, ◌++◌, Text, codes, Result, ok, err, Error, wrap,
  arith, ◌⊎◌, inl, inr, if◌then◌else◌, Bool-cases, subst, sym, ◌+◌,
}
use flint2_xray_web_console.Base.Errors.{is_ok, Result-cases}
use flint2_xray_web_console.Os.{Env}
use flint2_xray_web_console.Store.{add, find_entry}
use flint2_xray_web_console.Store.Format.{DisabledClient}
use flint2_xray_web_console.Xray.Model.{Client, File}
use flint2_xray_web_console.Xray.Clients.{remove_client}
use flint2_xray_web_console.Xray.Clients.Wellformed.{remove_client-IsWellformed}
use flint2_xray_web_console.Xray.RoundTrip.Clients.{IsWellformed}
use flint2_xray_web_console.Panel.Types.{
  Server, Response, reply, reply_error, status_body, status_for_err, on_world,
}
use flint2_xray_web_console.Panel.Mutate.{mutate_config, Change}
use flint2_xray_web_console.Panel.Mutate.Outcome.{wrote, restart_failed}
use flint2_xray_web_console.Panel.View.{
  Stands, mutate_changed, mutate_refused, mutate_result, add-Stands,
}
use flint2_xray_web_console.Panel.Clients.{handle_disable, take_client}
use flint2_xray_web_console.Panel.Clients.Refusals.{take_client-early}

module _ (env : Env) (id : Text) (f : File) (ds : List DisabledClient) where
  -- The client has moved from the config to the end of the store, which had no client of its UUID.
  pub record Moved (s' : Server) : Type 0 where
    pub file : File
    pub client : Client
    pub at : Text
    pub taken : remove_client id f ≡ ok (file, client)
    pub fresh : find_entry client.id ds ≡ none
    pub stands : Stands env s' file (ds ++ record { client = client; disabled_at = at } ∷ [])

  -- The client has left the config, and the store is as it was; the call failed in the restart, or
  -- in the store.
  pub record Dropped (s' : Server) (e : Error) : Type 0 where
    pub file : File
    pub client : Client
    pub taken : remove_client id f ≡ ok (file, client)
    pub cause : (restart_failed e ≡ true) ⊎ ((inner : Error) × (e ≡ wrap "disabled store" inner))
    pub stands : Stands env s' file ds

  abbrev pub Disabled : Response × Server → Type 0
  Disabled (resp, s') =
      ((resp ≡ reply 200 (status_body (codes "disabled"))) × Moved s')
      ⊎ ((e : Error) × (resp ≡ reply_error (status_for_err e) e) × Stands env s' f ds)
      ⊎ ((e : Error) × (code : ℕ) × (resp ≡ reply_error code e) × Dropped s' e)

  abbrev store_reply : Result (Unit {0}) × Server → Response × Server
  store_reply (d, s'') = elim d [
    | err e ↦ (reply_error 500 (wrap "disabled store" e), s'')
    | ok _ ↦ (reply 200 (status_body (codes "disabled")), s'')
  ]

  abbrev respond : Result Client × Server → Response × Server
  respond (r, s') = elim r [
    | err e ↦ (reply_error (status_for_err e) e, s')
    | ok removed ↦ store_reply (on_world (add env s'.cfg.disabled_store removed) s')
  ]

  took_removed :
      (f' : File) (c : Client) → take_client id f ≡ ok (f', c) → remove_client id f ≡ ok (f', c)
  unfolding take_client
  took_removed f' c took = ground arith

  module _ (prints : (n : ℕ) → env.is_time (env.now n) ≡ true) where
    stashed :
        (f' : File) (c : Client) (d : Result (Unit {0})) (s'' : Server) (at : Text)
        → remove_client id f ≡ ok (f', c)
        → Stands env s'' f'
            (if is_ok d then ds ++ record { client = c; disabled_at = at } ∷ [] else ds)
        → (is_ok d ≡ true → find_entry c.id ds ≡ none)
        → Disabled (store_reply (d, s''))
    stashed f' c (ok _) s'' at taken st fresh = inl (
      refl,
      record { file = f'; client = c; at = at; taken = taken; fresh = fresh refl; stands = st },
    )
    stashed f' c (err e) s'' at taken st fresh = inr (
        inr (
          wrap "disabled store" e,
          500,
          refl,
          record { file = f'; client = c; taken = taken; cause = inr (e, refl); stands = st },
        ))

    answered :
        (f' : File) (c : Client) (r : Result Client) (s' : Server)
        → remove_client id f ≡ ok (f', c)
        → IsWellformed c
        → Stands env s' (if wrote r then f' else f) ds
        → ((b : Client) → r ≡ ok b → b ≡ c)
        → Disabled (respond (r, s'))
    answered f' c (ok b) s' taken w st same =
        let wb = subst IsWellformed (sym (same b refl)) w in
        let taken' = subst (λ x. remove_client id f ≡ ok (f', x)) (sym (same b refl)) taken in
        stashed f' b (add env s'.cfg.disabled_store b s'.world).0 _ (env.now (s'.world.calls + 1))
          taken' (add-Stands env s' f' ds st b wb prints).0
          (add-Stands env s' f' ds st b wb prints).1
    answered f' c (err e) s' taken w st same = elim (Bool-cases (restart_failed e)) [
      | inl late ↦ inr (
          inr (
            e,
            status_for_err e,
            refl,
            record {
              file = f';
              client = c;
              taken = taken;
              cause = inl late;
              stands = subst (λ b. Stands env s' (if b then f' else f) ds) late st;
            },
          ))
      | inr early ↦
          inr (inl (e, refl, subst (λ b. Stands env s' (if b then f' else f) ds) early st))
    ]

    refused :
        (r : Result Client) (s' : Server)
        → Stands env s' f ds
        → wrote r ≡ false
        → Disabled (respond (r, s'))
    refused (ok c) s' st early = cc
    refused (err e) s' st early = inr (inl (e, refl, st))

    -- Where the two files stand for a config and a store, and the clock prints times that can be
    -- read: disabling a client either answers 200, and the client, with all its fields, has moved
    -- from the config to the end of the store, which had no client of its UUID; or it answers an
    -- error and both files stand for what they did; or it answers an error of the restart or of the
    -- store, the client has left the config, and the store stands for what it did.
    pub disable_outcome : (s : Server) → Stands env s f ds → Disabled (handle_disable env id s)
    unfolding handle_disable
    disable_outcome s h =
        let change : Change Client = λ g w. take_client id g in
        let r = (mutate_config env change s).0 in
        let s' = (mutate_config env change s).1 in
        elim (Result-cases (take_client id f)) [
          | inl (e, no_client) ↦
              let (st, early) =
                mutate_refused env s f ds h change e no_client
                  (take_client-early id f e no_client) in
              refused r s' st early
          | inr ((f', c), took) ↦
              let taken = took_removed f' c took in
              let (wc, wf) = remove_client-IsWellformed id f f' c taken h.wellformed in
              answered f' c r s' taken wc (mutate_changed env s f ds h change f' c took wf)
                (λ b q. mutate_result env s f ds h change f' c b took q)
        ]
