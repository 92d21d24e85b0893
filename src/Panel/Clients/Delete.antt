-- ===== src/Panel/Clients/Delete.antt =====
-- DELETE /api/clients/{id}: where the client is afterwards.
use flint2_xray_web_console.Base.{
  ◌≡◌, refl, Option, none, some, List, Text, Result, ok, err, Error, wrap, arith, ◌⊎◌, inl, inr,
  if◌then◌else◌, Bool-cases, subst,
}
use flint2_xray_web_console.Base.Errors.{Result-cases}
use flint2_xray_web_console.Os.{Env}
use flint2_xray_web_console.Store.{remove_entry, find_entry}
use flint2_xray_web_console.Store.Format.{DisabledClient}
use flint2_xray_web_console.Store.Remove.{IsTaken}
use flint2_xray_web_console.Xray.Model.{Client, File}
use flint2_xray_web_console.Xray.Clients.{remove_client}
use flint2_xray_web_console.Xray.Clients.Wellformed.{remove_client-IsWellformed}
use flint2_xray_web_console.Xray.RoundTrip.{IsWellformedFile}
use flint2_xray_web_console.Panel.Types.{Server, Response, reply, reply_error, no_body, on_world}
use flint2_xray_web_console.Panel.Mutate.{mutate_config, Change}
use flint2_xray_web_console.Panel.Mutate.Outcome.{wrote, restart_failed}
use flint2_xray_web_console.Panel.View.{Stands, Left, mutate_changed, remove-Left}
use flint2_xray_web_console.Panel.Clients.{handle_delete, drop_client}

module _ (env : Env) (id : Text) (f : File) (ds : List DisabledClient) where
  -- The config without its first client of the UUID; all of it if there is none.
  abbrev pub IsDropped : File → Type 0
  IsDropped g =
      ((c : Client) × (remove_client id f ≡ ok (g, c)))
      ⊎ ((e : Error) × (remove_client id f ≡ err e) × (g ≡ f))

  -- The store without its first entry of the UUID; all of it if there is none.
  abbrev pub IsRest : List DisabledClient → Type 0
  IsRest rest =
      ((find_entry id ds ≡ none) × (rest ≡ ds))
      ⊎ ((d : DisabledClient) × IsTaken id ds (some (d, rest)))

  abbrev pub Deleted : Response × Server → Type 0
  Deleted (resp, s') =
      ((resp ≡ reply 204 no_body)
        × (g : File) × (rest : List DisabledClient) × IsDropped g
        × IsRest rest
        × Stands env s' g rest)
      ⊎ ((e : Error) × (resp ≡ reply_error 500 e)
          × (g : File) × (IsDropped g ⊎ (g ≡ f))
          × Stands env s' g ds)

  dropped : (g : File) × (drop_client id f ≡ ok (g, tt)) × IsDropped g
  dropped = elim (Result-cases (remove_client id f)) [
    | inl (e, kept) ↦ (f, (unfold drop_client in ground (arith, kept)), inr (e, kept, refl))
    | inr ((g, c), taken) ↦ (g, (unfold drop_client in ground (arith, taken)), inl (c, taken))
  ]

  dropped-IsWellformed : (g : File) → IsDropped g → IsWellformedFile f → IsWellformedFile g
  dropped-IsWellformed g (inl (c, taken)) w = (remove_client-IsWellformed id f g c taken w).1
  dropped-IsWellformed g (inr (e, kept, same)) w = rw same w

  -- the end of `handle_delete`
  abbrev conclude : Result (Option Client) × Server → Response × Server
  conclude (d, s'') = elim d [
    | err e ↦ (reply_error 500 (wrap "disabled store" e), s'')
    | ok _ ↦ (reply 204 no_body, s'')
  ]

  abbrev respond : Result (Unit {0}) × Server → Response × Server
  respond (r, s') = elim r [
    | err e ↦ (reply_error 500 e, s')
    | ok _ ↦ conclude (on_world (remove_entry env s'.cfg.disabled_store id) s')
  ]

  concluded :
      (g : File) (s : Server) (h : Stands env s g ds) (d : Result (Option Client)) (s'' : Server)
      → IsDropped g
      → Left env s g ds h id (d, s'')
      → Deleted (conclude (d, s''))
  concluded g s h (err e) s'' gone st = inr (wrap "disabled store" e, refl, g, inl gone, st)
  concluded g s h (ok none) s'' gone (st, absent) = inl (refl, g, ds, gone, inl (absent, refl), st)
  concluded g s h (ok (some c)) s'' gone (d, rest, taken, made, w, st) =
      inl (refl, g, rest, gone, inr (d, taken), st)

  answered :
      (g : File) (r : Result (Unit {0})) (s' : Server)
      → IsDropped g
      → Stands env s' (if wrote r then g else f) ds
      → Deleted (respond (r, s'))
  answered g (ok _) s' gone st =
      let (d, s'') = on_world (remove_entry env s'.cfg.disabled_store id) s' in
      concluded g s' st d s'' gone (remove-Left env s' g ds st id)
  answered g (err e) s' gone st = elim (Bool-cases (restart_failed e)) [
    | inl late ↦
        inr (e, refl, g, inl gone, subst (λ b. Stands env s' (if b then g else f) ds) late st)
    | inr early ↦
        inr (e, refl, f, inr refl, subst (λ b. Stands env s' (if b then g else f) ds) early st)
  ]

  -- Where the two files stand for a config and a store: deleting a client either answers 204, and
  -- the config is without its first client of the UUID and the store without its first entry of it,
  -- each as it was if it had none; or it answers 500, the store stands for what it did, and the
  -- config is the old one or the one without the client.
  pub delete_outcome : (s : Server) → Stands env s f ds → Deleted (handle_delete env id s)
  unfolding handle_delete
  delete_outcome s h =
      let change : Change (Unit {0}) = λ g w. drop_client id g in
      let (g, applies, gone) = dropped in
      let r = (mutate_config env change s).0 in
      let s' = (mutate_config env change s).1 in
      answered g r s' gone
        (mutate_changed env s f ds h change g tt applies (dropped-IsWellformed g gone h.wellformed))
