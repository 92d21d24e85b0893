-- ===== src/Panel/Clients/Calm.antt =====
-- Disabling a client where no system call fails and every command exits with 0.
use flint2_xray_web_console.Base.{
  All, ◌++◌, ◌∷◌, [], text_eq, text_eq_iff, subst, is_some, sym, ap, ◌∙◌, ◌+◌, ◌≡◌, ◌↔◌, ℕ, true,
  false, none, List, Text, codes, ok, err, arith, refl, inl, inr, Error,
}
use flint2_xray_web_console.Base.Errors.{is_ok, Result, Result-cases}
use flint2_xray_web_console.Os.{Env, World, tick}
use flint2_xray_web_console.Service.{test_command, init_command, Manager, restart}
use flint2_xray_web_console.Service.Guard.{succeeded, restart_guarded}
use flint2_xray_web_console.Store.{add, find_entry}
use flint2_xray_web_console.Store.Calm.{add_works}
use flint2_xray_web_console.Store.Format.{DisabledClient}
use flint2_xray_web_console.Xray.Model.{Client, File}
use flint2_xray_web_console.Xray.Clients.{
  remove_client, find_client, find_id, clients_of, primary_inbound,
}
use flint2_xray_web_console.Xray.Clients.Primary.{clients_of-primary}
use flint2_xray_web_console.Xray.Clients.Remove.{
  remove_client_splits, remove_client_succeeds, find_client-primary,
}
use flint2_xray_web_console.Xray.Clients.Wellformed.{remove_client-IsWellformed}
use flint2_xray_web_console.Xray.Disk.Calm.{write_config_works}
use flint2_xray_web_console.Panel.Types.{
  status_for_err, Server, Response, reply, reply_error, status_body,
}
use flint2_xray_web_console.Panel.Mutate.{mutate_config, Change}
use flint2_xray_web_console.Panel.Mutate.Outcome.{rewrite_done, mutate_config_lem}
use flint2_xray_web_console.Panel.View.{Stands, mutate_changed}
use flint2_xray_web_console.Panel.Clients.{handle_disable, take_client}
use flint2_xray_web_console.Panel.Clients.Disable.{Disabled, disable_outcome}

is_done : (r : Result (Unit {0})) → is_ok r ≡ true → r ≡ ok tt
is_done (ok tt) h = refl
is_done (err e) h = absurd (ground arith)

error_apart : (n : ℕ) (e : Error) → reply_error n e ≡ reply 200 (status_body (codes "disabled")) → ⊥
error_apart n e h = cc

-- a client of the UUID is in the list
abbrev pub IsListed : Text → List Client → Type 0
IsListed id l =
    (before : List Client) × (c : Client) × (after : List Client) × (l ≡ before ++ c ∷ after)
    × (c.id ≡ id)

-- no entry of the store has the UUID
abbrev pub IsUnstored : Text → List DisabledClient → Type 0
IsUnstored id ds = All (λ (d : DisabledClient). text_eq d.client.id id ≡ false) ds

find_entry-IsUnstored :
    (id : Text) (ds : List DisabledClient) → find_entry id ds ≡ none → IsUnstored id ds
unfolding find_entry
find_entry-IsUnstored id [] h = tt
find_entry-IsUnstored id (d ∷ ds) h = (ground arith, find_entry-IsUnstored id ds (ground arith))

find_entry-none :
    (id : Text) (ds : List DisabledClient) → IsUnstored id ds → find_entry id ds ≡ none
unfolding find_entry
find_entry-none id [] h = refl
find_entry-none id (d ∷ ds) h = ground (arith, h.0, find_entry-none id ds h.1)

find_id-middle :
    (id : Text) (before : List Client) (c : Client) (after : List Client)
    → c.id ≡ id
    → is_some (find_id id (before ++ c ∷ after)) ≡ true
unfolding find_id
find_id-middle id [] c after e = ground (arith, text_eq_iff c.id id)
find_id-middle id (d ∷ before) c after e = ground (arith, find_id-middle id before c after e)

find_client-clients_of : (id : Text) (f : File) → find_client id f ≡ find_id id (clients_of f)
find_client-clients_of id f = elim (Result-cases (primary_inbound f)) [
  | inl (e, h) ↦ unfold find_client in unfold clients_of in unfold find_id in ground (arith, h)
  | inr (i, h) ↦ find_client-primary id f i h ∙ ap (find_id id) (sym (clients_of-primary i f h))
]

listed_taken :
    (id : Text) (f : File)
    → IsListed id (clients_of f)
    → (f' : File) × (c : Client) × (remove_client id f ≡ ok (f', c))
listed_taken id f (before, c, after, at, own) =
    let there : is_some (find_client id f) ≡ true =
      ap is_some (find_client-clients_of id f ∙ ap (find_id id) at)
      ∙ find_id-middle id before c after own in
    elim (Result-cases (remove_client id f)) [
      | inl (e, gone) ↦ absurd (ground (arith, remove_client_succeeds id f, gone, there))
      | inr ((f', d), taken) ↦ (f', d, taken)
    ]

module _ (env : Env) (calm : (n : ℕ) → env.fails n ≡ false)
    (obeys : (n : ℕ) (args : List Text) → succeeded (env.runs n args).exit ≡ true) where
  restart_works : (m : Manager) (w : World) → (restart env m w).0 ≡ ok tt
  restart_works m w =
      let (_, good, _) = restart_guarded env m w in
      let test = obeys w.calls (test_command m m.config_path) in
      let script = obeys (w.calls + 1) (init_command m (codes "restart")) in
      is_done (restart env m w).0 (good ∙ rw test script)

  module _ (id : Text) (s : Server) (f : File) (ds : List DisabledClient)
      (h : Stands env s f ds) where
    took :
        (f' : File) (c : Client) → remove_client id f ≡ ok (f', c) → take_client id f ≡ ok (f', c)
    unfolding take_client
    took f' c taken = ground (arith, taken)

    taken_works :
        (f' : File) (c : Client)
        → remove_client id f ≡ ok (f', c)
        → (mutate_config env (λ g w. take_client id g) s).0 ≡ ok c
    taken_works f' c taken =
        let change : Change Client = λ g w. take_client id g in
        ap (λ r. r.0) (mutate_config_lem env change s)
        ∙ rewrite_done env change s.conf_path s.manager s.world f f' c (calm s.world.calls) h.config
            (took f' c taken)
            (write_config_works env s.conf_path calm f' (tick s.world)
              (remove_client-IsWellformed id f f' c taken h.wellformed).1)
            (restart_works s.manager)

    moved_works :
        (f' : File) (c : Client)
        → remove_client id f ≡ ok (f', c)
        → find_entry c.id ds ≡ none
        → (handle_disable env id s).0 ≡ reply 200 (status_body (codes "disabled"))
    unfolding handle_disable
    moved_works f' c taken fresh =
        let change : Change Client = λ g w. take_client id g in
        let s' = (mutate_config env change s).1 in
        let st =
          mutate_changed env s f ds h change f' c (took f' c taken)
            (remove_client-IsWellformed id f f' c taken h.wellformed).1 in
        let added : (add env s'.cfg.disabled_store c s'.world).0 ≡ ok tt =
          is_done (add env s'.cfg.disabled_store c s'.world).0
            (add_works env s'.cfg.disabled_store calm c s'.world ds st.store ∙ rw fresh refl) in
        rw (handle_disable, taken_works f' c taken, added) refl

    answers_well :
        (out : Response × Server)
        → Disabled env id f ds out
        → out.0 ≡ reply 200 (status_body (codes "disabled"))
        → (f' : File) × (c : Client) × (remove_client id f ≡ ok (f', c))
          × (find_entry c.id ds ≡ none)
    answers_well (a, s') (inl (same, m)) e = (m.file, m.client, m.taken, m.fresh)
    answers_well (a, s') (inr (inl (er, same, st))) e =
        absurd (error_apart (status_for_err er) er (sym same ∙ e))
    answers_well (a, s') (inr (inr (er, code, same, d))) e =
        absurd (error_apart code er (sym same ∙ e))

    -- Where the two files stand for a config and a store, the clock prints times that can be read,
    -- no system call fails and every command exits with 0: disabling a client answers 200 exactly if
    -- the first VLESS inbound has a client of the UUID and the store has none.
    pub disable_works :
        ((n : ℕ) → env.is_time (env.now n) ≡ true)
        → ((handle_disable env id s).0 ≡ reply 200 (status_body (codes "disabled")))
          ↔ (IsListed id (clients_of f) × IsUnstored id ds)
    disable_works prints = (
      λ done.
          let (f', c, taken, fresh) =
            answers_well (handle_disable env id s) (disable_outcome env id f ds prints s h) done in
          let (before, after, at, _, _, own) = remove_client_splits id f f' c taken in
          (
            (before, c, after, at, own),
            find_entry-IsUnstored id ds (subst (λ k. find_entry k ds ≡ none) own fresh),
          ),
      λ (there, absent).
          let (f', c, taken) = listed_taken id f there in
          let (_, _, _, _, _, own) = remove_client_splits id f f' c taken in
          moved_works f' c taken
            (subst (λ k. find_entry k ds ≡ none) (sym own) (find_entry-none id ds absent)),
    )
