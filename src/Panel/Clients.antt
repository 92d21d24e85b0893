-- ===== src/Panel/Clients.antt =====
-- The client endpoints of internal/http/clients.go: create, patch, delete, disable and enable. A
-- request's JSON body is a `Content`, and its path value `id` an argument.
pub mod Requests
pub mod Refusals
pub mod Create
pub mod Disable
pub mod Calm
pub mod Enable
pub mod Delete
pub mod Patch
use flint2_xray_web_console.Base.{
  ℕ, Bool, true, false, Option, none, some, List, [], ◌∷◌, ◌++◌, Text, codes, text_eq, Result, ok,
  err, Error, fail, not_found, wrap, if◌then◌else◌, is_nil, ◌&&◌, ◌||◌, not, is_some,
}
use flint2_xray_web_console.Base.Errors.{◌>>=◌}
use flint2_xray_web_console.Base.Strings.{trim_space}
use flint2_xray_web_console.Exec.{Exec}
use flint2_xray_web_console.Os.{Env, World, Content}
use flint2_xray_web_console.Store.{add, remove_entry}
use flint2_xray_web_console.Xray.Model.{Client, Settings, Inbound, File}
use flint2_xray_web_console.Xray.Clients.{
  primary_inbound, set_primary, settings_of, with_clients, add_client, find_client, remove_client,
  find_id,
}
use flint2_xray_web_console.Panel.Types.{
  Server, Response, reply, reply_error, status_for_err, on_world, block, client_body, status_body,
  no_body,
}
use flint2_xray_web_console.Panel.Mutate.{Change, mutate_config}
use flint2_xray_web_console.Panel.Clients.Requests.{
  CreateRequest, PatchRequest, decode_create, decode_patch,
}

abbrev pub Handler : Type 0
Handler = Server → Response × Server

abbrev pub default_flow : Text
default_flow = codes "xtls-rprx-vision"

-- some other client of the list bears the name
unfoldable pub name_collides : Text → Text → List Client → Bool
name_collides id name [] = false
name_collides id name (c ∷ l) =
    (not (text_eq c.id id) && text_eq c.email name) || name_collides id name l

-- a write through the pointer that `FindClient` returned
unfoldable pub set_client : Text → Client → List Client → List Client
set_client id new [] = []
set_client id new (c ∷ l) = if text_eq c.id id then new ∷ l else c ∷ set_client id new l

-- `c.Email = trimmed`, after its checks
unfoldable pub renamed : Text → Option Text → List Client → Client → Result Client
unfolding trim_space name_collides
renamed id none l c = ok c
renamed id (some raw_name) l c =
    let name = trim_space raw_name in
    if is_nil name
    then err (fail "name cannot be empty")
    else if name_collides id name l
    then err (fail "name is already taken")
    else ok (record c { email = name })

abbrev pub reflowed : Option Text → Client → Client
reflowed none c = c
reflowed (some flow) c = record c { flow = flow }

-- the function that `handlePatchClient` hands to `mutateConfig`
unfoldable pub patch_client : Text → PatchRequest → File → Result (File × Client)
unfolding set_client renamed
patch_client id req f = elim (find_client id f) [
  | none ↦ err (not_found id)
  | some c ↦ do
    i ← primary_inbound f
    let l = (settings_of i).clients
    d ← renamed id req.name l c
    let e = reflowed req.flow d
    ok (set_primary (with_clients (set_client id e l) i) f, e)
]

-- the function that `handleEnableClient` hands to `mutateConfig`
unfoldable pub restore_client : Client → File → Result (File × Unit {0})
restore_client c f = do
  i ← primary_inbound f
  let l = (settings_of i).clients
  if is_some (find_id c.id l)
      then err (fail "client is already enabled")
      else ok (set_primary (with_clients (l ++ c ∷ []) i) f, tt)

-- the function that `handleDisableClient` hands to `mutateConfig`
unfoldable pub take_client : Text → File → Result (File × Client)
take_client id f = elim (remove_client id f) [ ok r ↦ ok r | err e ↦ err (not_found id) ]

-- the function that `handleDeleteClient` hands to `mutateConfig`: a client that is not there is
-- no error
unfoldable pub drop_client : Text → File → Result (File × Unit {0})
drop_client id f = elim (remove_client id f) [ ok (f', c) ↦ ok (f', tt) | err e ↦ ok (f, tt) ]

module _ (env : Env) where
  -- `handleCreateClient` past the checks of the request
  unfoldable pub create : Text → Text → Handler
  create name flow s =
      let (r, s') = mutate_config env (λ f w. add_client (env.uuid w.calls) name flow f) s in
      elim r [ err e ↦ (reply_error 500 e, s') | ok c ↦ (reply 201 (client_body (block c)), s') ]

  unfoldable pub handle_create : Content → Handler
  unfolding trim_space create
  handle_create body s = elim (decode_create body) [
    | err e ↦ (reply_error 400 (wrap "parse body" e), s)
    | ok req ↦
        let name = trim_space req.name in
        if is_nil name
        then (reply_error 400 (fail "name is required"), s)
        else create name (if is_nil req.flow then default_flow else req.flow) s
  ]

  -- `handlePatchClient` past the checks of the request
  unfoldable pub patch : Text → PatchRequest → Handler
  patch id req s =
      let (r, s') = mutate_config env (λ f w. patch_client id req f) s in
      elim r [
        | err e ↦ (reply_error (status_for_err e) e, s')
        | ok c ↦ (reply 200 (client_body (block c)), s')
      ]

  unfoldable pub handle_patch : Text → Content → Handler
  unfolding patch
  handle_patch id body s =
      if is_nil id then (reply_error 400 (fail "id required"), s) else elim (decode_patch body) [
        | err e ↦ (reply_error 400 (wrap "parse body" e), s)
        | ok req ↦
            if not (is_some req.name) && not (is_some req.flow)
            then (reply_error 400 (fail "nothing to change"), s)
            else patch id req s
      ]

  unfoldable pub handle_delete : Text → Handler
  handle_delete id s =
      let (r, s') = mutate_config env (λ f w. drop_client id f) s in
      elim r [
        | err e ↦ (reply_error 500 e, s')
        | ok _ ↦
            let (d, s'') = on_world (remove_entry env s'.cfg.disabled_store id) s' in
            elim d [
              | err e ↦ (reply_error 500 (wrap "disabled store" e), s'')
              | ok _ ↦ (reply 204 no_body, s'')
            ]
      ]

  unfoldable pub handle_disable : Text → Handler
  handle_disable id s =
      let (r, s') = mutate_config env (λ f w. take_client id f) s in
      elim r [
        | err e ↦ (reply_error (status_for_err e) e, s')
        | ok removed ↦
            let (d, s'') = on_world (add env s'.cfg.disabled_store removed) s' in
            elim d [
              | err e ↦ (reply_error 500 (wrap "disabled store" e), s'')
              | ok _ ↦ (reply 200 (status_body (codes "disabled")), s'')
            ]
      ]

  -- `handleEnableClient` once the client is out of the disabled store; the rollback drops its
  -- own error
  unfoldable pub enable : Client → Handler
  enable removed s =
      let (r, s') = mutate_config env (λ f w. restore_client removed f) s in
      elim r [
        | err e ↦ (reply_error 500 e, (on_world (add env s'.cfg.disabled_store removed) s').1)
        | ok _ ↦ (reply 200 (client_body (block removed)), s')
      ]

  unfoldable pub handle_enable : Text → Handler
  unfolding enable
  handle_enable id s =
      let (r, s') = on_world (remove_entry env s.cfg.disabled_store id) s in
      elim r [
        | err e ↦ (reply_error 500 e, s')
        | ok o ↦ elim o [ none ↦ (reply_error 404 (not_found id), s') | some c ↦ enable c s' ]
      ]
