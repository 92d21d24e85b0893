-- ===== src/Panel/Admin/Tracking.antt =====
-- POST /api/server/enable-online-tracking, once and again.
use flint2_xray_web_console.Base.{
  if◌then◌else◌, ◌≡◌, false, some, ok, refl, arith, text_eq_refl, Option, true, ◌∙◌, Bool-cases,
  inl, inr, sym, ap,
}
use flint2_xray_web_console.Base.Errors.{Result-cases, wrap, fail, Result}
use flint2_xray_web_console.Json.{Json}
use flint2_xray_web_console.Os.{Env, World, named, json, tick}
use flint2_xray_web_console.Xray.Model.{File}
use flint2_xray_web_console.Xray.Codec.{encode_file}
use flint2_xray_web_console.Xray.Disk.{read_config, parse}
use flint2_xray_web_console.Xray.Disk.Atomic.{path-apart}
use flint2_xray_web_console.Panel.Types.{Server, reply, online_body, reply_error, Response}
use flint2_xray_web_console.Panel.Mutate.{rewrite, mutate_config}
use flint2_xray_web_console.Panel.Mutate.Outcome.{
  config_of, rewrite_files, mutate_config_lem, read_config_live, read_config_dead,
}
use flint2_xray_web_console.Panel.Policy.{
  changed, merge_online_flag, policy_has_online_flag, unchanged, Merged,
}
use flint2_xray_web_console.Panel.Admin.{
  enable_online, turn_online_on, handle_enable_online_tracking, tracking_from,
}
use flint2_xray_web_console.Xray.RoundTrip.{IsWellformedFile, decode-encode_file}
use flint2_xray_web_console.Panel.Policy.Merge.{is_unchanged, merge_skips, merge_turns_on}

module _ (env : Env) (s : Server) (f : File) where
  -- the rewrite succeeds
  turned_on :
      (j : Json)
      → config_of (s.world.files (named s.conf_path)) ≡ ok f
      → merge_online_flag f.policy ≡ changed j
      → (turn_online_on env s).0 ≡ reply 200 (online_body false)
      → (turn_online_on env s).1.world.files (named s.conf_path)
        ≡ some (json (encode_file (record f { policy = some j })))
  unfolding turn_online_on enable_online
  turned_on j held merged h =
      let change = λ (f : File) (w : World). enable_online f in
      let files =
        rewrite_files env change s.conf_path s.manager s.world f (record f { policy = some j }) tt
          s.conf_path held (rw (enable_online, merged) refl) (path-apart s.conf_path) in
      ground (
        arith,
        mutate_config_lem env change s,
        files,
        text_eq_refl s.conf_path,
        Result-cases (rewrite env s.conf_path s.manager change s.world).0,
      )

unchanged_if_on :
    (o : Option Json) → policy_has_online_flag o ≡ true → merge_online_flag o ≡ unchanged
unchanged_if_on o h = unchanged_is (merge_online_flag o) (merge_skips o ∙ h)
  where
    unchanged_is : (m : Merged) → is_unchanged m ≡ true → m ≡ unchanged
    unchanged_is Merged.panics e = ground arith
    unchanged_is (Merged.failed er) e = ground arith
    unchanged_is unchanged e = refl
    unchanged_is (changed j) e = ground arith

some_reply : {a b : Response} → some a ≡ some b → a ≡ b
some_reply e = cc

module _ (env : Env) where
  path_kept : (s : Server) → (turn_online_on env s).1.conf_path ≡ s.conf_path
  unfolding turn_online_on
  path_kept s = ground (
    arith,
    mutate_config_lem env (λ f w. enable_online f) s,
    Result-cases (mutate_config env (λ f w. enable_online f) s).0,
  )

  -- the request, by what the first reading gives
  by_reading :
      (s : Server) (r : Result File) (w : World)
      → read_config env s.conf_path s.world ≡ (r, w)
      → handle_enable_online_tracking env s ≡ tracking_from env r (record s { world = w })
  unfolding handle_enable_online_tracking
  by_reading s r w e = ap (λ p. tracking_from env p.0 (record s { world = p.1 })) e

  from_unchanged :
      (s : Server) (f : File)
      → merge_online_flag f.policy ≡ unchanged
      → tracking_from env (ok f) s ≡ (some (reply 200 (online_body true)), s)
  unfolding tracking_from
  from_unchanged s f e = rw (tracking_from, e) refl

  from_changed :
      (s : Server) (f : File) (j : Json)
      → merge_online_flag f.policy ≡ changed j
      → tracking_from env (ok f) s ≡ (some (turn_online_on env s).0, (turn_online_on env s).1)
  unfolding tracking_from
  from_changed s f j e = rw (tracking_from, e) refl

  -- A request on a file that holds a config with the flag on: one reading, and nothing else.
  already_on :
      (s : Server) (f : File)
      → config_of (s.world.files (named s.conf_path)) ≡ ok f
      → policy_has_online_flag f.policy ≡ true
      → let (a, s') = handle_enable_online_tracking env s in
        (s'.world ≡ tick s.world)
        × (a
            ≡ some (
                if env.fails s.world.calls
                then reply_error 500 (wrap "read config" (fail "read"))
                else reply 200 (online_body true)))
  already_on s f held on = elim (Bool-cases (env.fails s.world.calls)) [
    | inl dead ↦
        rw (by_reading s _ _ (read_config_dead env s.conf_path s.world dead), dead)
          (unfold tracking_from in (refl, refl))
    | inr live ↦
        rw
          (
            by_reading s _ _ (read_config_live env s.conf_path s.world f live held),
            from_unchanged (record s { world = tick s.world }) f (unchanged_if_on f.policy on),
            live,
          )
          (refl, refl)
  ]

  pub first_live :
      (s : Server) (f : File) (j : Json)
      → config_of (s.world.files (named s.conf_path)) ≡ ok f
      → merge_online_flag f.policy ≡ changed j
      → env.fails s.world.calls ≡ false
      → let (a, s') = turn_online_on env (record s { world = tick s.world }) in
        handle_enable_online_tracking env s ≡ (some a, s')
  first_live s f j held merged live =
      by_reading s _ _ (read_config_live env s.conf_path s.world f live held)
      ∙ from_changed (record s { world = tick s.world }) f j merged

  first_dead :
      (s : Server)
      → env.fails s.world.calls ≡ true
      → (handle_enable_online_tracking env s).0
        ≡ some (reply_error 500 (wrap "read config" (fail "read")))
  first_dead s dead =
      rw (by_reading s _ _ (read_config_dead env s.conf_path s.world dead))
        (unfold tracking_from in refl)

  -- the config after the request that turned the flag on
  first_on :
      (s : Server) (f : File) (j : Json)
      → config_of (s.world.files (named s.conf_path)) ≡ ok f
      → merge_online_flag f.policy ≡ changed j
      → IsWellformedFile (record f { policy = some j })
      → (handle_enable_online_tracking env s).0 ≡ some (reply 200 (online_body false))
      → let s1 = (handle_enable_online_tracking env s).1 in
        config_of (s1.world.files (named s1.conf_path)) ≡ ok (record f { policy = some j })
  first_on s f j held merged wf h = elim (Bool-cases (env.fails s.world.calls)) [
    | inl dead ↦ let e = first_dead s dead in absurd (ground (arith, e))
    | inr live ↦
        let e = first_live s f j held merged live in
        let now = record s { world = tick s.world } in
        rw e (
          rw
            (
              path_kept now,
              turned_on env now f j held merged (some_reply (sym (ap (λ r. r.0) e) ∙ h)),
            )
            (unfold config_of in
              unfold parse in decode-encode_file (record f { policy = some j }) wf))
  ]

  -- Where the file holds a config, and the request turned the flag on: the next request finds it
  -- on. It answers so, or that the file cannot be read, and does nothing else but read the file: no
  -- rewrite and no restart.
  pub tracking_again :
      (s : Server) (f : File) (j : Json)
      → config_of (s.world.files (named s.conf_path)) ≡ ok f
      → merge_online_flag f.policy ≡ changed j
      → IsWellformedFile (record f { policy = some j })
      → (handle_enable_online_tracking env s).0 ≡ some (reply 200 (online_body false))
      → let s1 = (handle_enable_online_tracking env s).1 in
        let (a, s2) = handle_enable_online_tracking env s1 in
        (s2.world ≡ tick s1.world)
        × (a
            ≡ some (
                if env.fails s1.world.calls
                then reply_error 500 (wrap "read config" (fail "read"))
                else reply 200 (online_body true)))
  tracking_again s f j held merged wf h =
      let f' = record f { policy = some j } in
      let s1 = (handle_enable_online_tracking env s).1 in
      let holds : config_of (s1.world.files (named s1.conf_path)) ≡ ok f' =
        first_on s f j held merged wf h in
      already_on s1 f' holds (merge_turns_on f.policy j merged)
