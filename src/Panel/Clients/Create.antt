-- ===== src/Panel/Clients/Create.antt =====
-- POST /api/clients: what the answer says of the config.
use flint2_xray_web_console.Base.{
  codes, is_nil, fail, wrap, ◌≡◌, refl, true, false, List, [], ◌∷◌, ◌++◌, Text, Result, ok, err,
  Error, ◌⊎◌, inl, inr, if◌then◌else◌, Bool-cases, ap, subst, ◌+◌, arith,
}
use flint2_xray_web_console.Base.Errors.{Result-cases}
use flint2_xray_web_console.Os.{Env, tick, Content}
use flint2_xray_web_console.Store.Format.{DisabledClient}
use flint2_xray_web_console.Xray.Model.{Client, File}
use flint2_xray_web_console.Xray.Clients.{clients_of, add_client, new_client, name_taken}
use flint2_xray_web_console.Xray.Clients.Primary.{add_client_appends}
use flint2_xray_web_console.Xray.Clients.Wellformed.{add_client-IsWellformed}
use flint2_xray_web_console.Panel.Types.{Server, Response, reply, reply_error, client_body, block}
use flint2_xray_web_console.Panel.Mutate.{mutate_config, Change}
use flint2_xray_web_console.Panel.Mutate.Outcome.{wrote, restart_failed}
use flint2_xray_web_console.Panel.View.{Stands, mutate_changed, mutate_refused, mutate_result}
use flint2_xray_web_console.Panel.Clients.{create, handle_create}
use flint2_xray_web_console.Panel.Clients.Requests.{CreateRequest, decode_create}
use flint2_xray_web_console.Base.Strings.{trim_space}
use flint2_xray_web_console.Panel.Clients.Refusals.{add_client-early}

module _ (env : Env) (name flow : Text) (f : File) (ds : List DisabledClient) where
  -- The panel stands for the old config with this client appended, under a new name.
  pub record Gained (s' : Server) (c : Client) : Type 0 where
    pub file : File
    pub stands : Stands env s' file ds
    pub appended : clients_of file ≡ clients_of f ++ c ∷ []
    pub made : c ≡ new_client c.id name flow
    pub fresh : name_taken name (clients_of f) ≡ false

  abbrev pub Created : Response × Server → Type 0
  Created (resp, s') =
      ((c : Client) × (resp ≡ reply 201 (client_body (block c))) × Gained s' c)
      ⊎ ((e : Error) × (resp ≡ reply_error 500 e)
          × ((restart_failed e ≡ false) × Stands env s' f ds
              ⊎ ((restart_failed e ≡ true) × ((c : Client) × Gained s' c))))

  abbrev respond : Result Client × Server → Response × Server
  respond (r, s') = elim r [
    | err e ↦ (reply_error 500 e, s')
    | ok c ↦ (reply 201 (client_body (block c)), s')
  ]

  answered :
      (f' : File) (c : Client) (r : Result Client) (s' : Server)
      → (Stands env s' f' ds → Gained s' c)
      → Stands env s' (if wrote r then f' else f) ds
      → ((b : Client) → r ≡ ok b → b ≡ c)
      → Created (respond (r, s'))
  answered f' c (ok b) s' gained st same =
      inl (c, ap (λ (x : Client). reply 201 (client_body (block x))) (same b refl), gained st)
  answered f' c (err e) s' gained st same = inr (
    e,
    refl,
    elim (Bool-cases (restart_failed e)) [
      | inl late ↦
          inr (late, (c, gained (subst (λ b. Stands env s' (if b then f' else f) ds) late st)))
      | inr early ↦ inl (early, subst (λ b. Stands env s' (if b then f' else f) ds) early st)
    ],
  )

  refused :
      (r : Result Client) (s' : Server)
      → Stands env s' f ds
      → wrote r ≡ false
      → Created (respond (r, s'))
  refused (ok c) s' st early = cc
  refused (err e) s' st early = inr (e, refl, inl (early, st))

  -- past the checks of the request
  created : (s : Server) → Stands env s f ds → Created (create env name flow s)
  unfolding create
  created s h =
      let change : Change Client = λ f w. add_client (env.uuid w.calls) name flow f in
      elim (Result-cases (change f (tick s.world))) [
        | inl (e, no_client) ↦
            let (st, early) =
              mutate_refused env s f ds h change e no_client
                (add_client-early (env.uuid (s.world.calls + 1)) name flow f e no_client) in
            refused (mutate_config env change s).0 (mutate_config env change s).1 st early
        | inr ((f', c), added) ↦
            let uuid = env.uuid (s.world.calls + 1) in
            let (appended, drawn, made, fresh) = add_client_appends uuid name flow f f' c added in
            answered f' c (mutate_config env change s).0 (mutate_config env change s).1
              (λ st. record {
                file = f';
                stands = st;
                appended = appended;
                made = made;
                fresh = fresh;
              })
              (mutate_changed env s f ds h change f' c added
                (add_client-IsWellformed uuid name flow f f' c added h.wellformed))
              (λ b r. mutate_result env s f ds h change f' c b added r)
      ]

module _ (env : Env) (f : File) (ds : List DisabledClient) where
  -- the name in the body without the spaces around it, and the flow in the body or the default one
  abbrev pub asked_name : CreateRequest → Text
  asked_name req = trim_space req.name

  abbrev pub asked_flow : CreateRequest → Text
  asked_flow req = if is_nil req.flow then codes "xtls-rprx-vision" else req.flow

  -- How the endpoint can end on this body: the body cannot be read; the name in it is empty or
  -- blank; or the request is carried out.
  abbrev pub Ended : Content → Server → Response × Server → Type 0
  Ended body s (resp, s') =
      ((e : Error) × (decode_create body ≡ err e)
        × (resp ≡ reply_error 400 (wrap "parse body" e))
        × (s' ≡ s))
      ⊎ ((req : CreateRequest) × (decode_create body ≡ ok req)
          × (asked_name req ≡ [])
          × (resp ≡ reply_error 400 (fail "name is required"))
          × (s' ≡ s))
      ⊎ ((req : CreateRequest) × (decode_create body ≡ ok req)
          × (is_nil (asked_name req) ≡ false)
          × Created env (asked_name req) (asked_flow req) f ds (resp, s'))

  -- Where the two files stand for a config and a store: POST /api/clients answers 400 and does
  -- nothing, if the body cannot be read or the name in it is empty but for spaces. Else it answers
  -- 201 with a client that is now the last of the config, whose name, the trimmed one of the body,
  -- no other client bore, and whose flow is that of the body or, if that is empty,
  -- xtls-rprx-vision; or it answers 500, and the config is the old one or, where only the restart
  -- failed, the one with the client. The disabled store stays as it was.
  pub create_outcome :
      (body : Content) (s : Server) → Stands env s f ds → Ended body s (handle_create env body s)
  unfolding handle_create
  create_outcome body s h = elim (Result-cases (decode_create body)) [
    | inl (e, unread) ↦ rw (handle_create, unread) (inl (e, refl, refl, refl))
    | inr (req, read) ↦ elim (Bool-cases (is_nil (trim_space req.name))) [
      | inl blank ↦
          rw (handle_create, read, blank) (inr (inl (req, refl, ground arith, refl, refl)))
      | inr given ↦
          rw (handle_create, read, given)
            (inr (inr (req, refl, given, created env (asked_name req) (asked_flow req) f ds s h)))
    ]
  ]
