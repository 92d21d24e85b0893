-- ===== src/Panel/Mutate/Outcome.antt =====
-- How a call of `mutateConfig` can end, and what is then on the disk.
use flint2_xray_web_console.Base.{
  ◌≡◌, ◌≢◌, Bool, true, false, ◌&&◌, Option, none, some, Text, text_eq, Error, fail, wrap, Result,
  ok, err, arith, if◌then◌else◌, Bool-cases, inl, inr, refl, ◌⊎◌,
}
use text.Mathlib.Text.{◌==◌ as str_eq}
use flint2_xray_web_console.Os.{Env, World, Content, json, named, bak, tick}
use flint2_xray_web_console.Service.{Manager, restart}
use flint2_xray_web_console.Service.Guard.{restart_guarded}
use flint2_xray_web_console.Xray.Model.{File}
use flint2_xray_web_console.Xray.Codec.{encode_file}
use flint2_xray_web_console.Xray.Disk.{parse, read_config, write_config}
use flint2_xray_web_console.Xray.Disk.Atomic.{write_config_atomic}
use flint2_xray_web_console.Panel.Mutate.{Change, rewrite, mutate_config}
use flint2_xray_web_console.Panel.Types.{Server}
use flint2_xray_web_console.Base.Errors.{is_ok, Result-cases}

-- The config that a file's contents stand for.
unfoldable pub config_of : Option Content → Result File
config_of none = err (fail "read")
config_of (some c) = parse c

-- Did the call fail in the restart, after the file was written?
abbrev pub restart_failed : Error → Bool
restart_failed (wrap msg e) = str_eq msg "restart xray"
restart_failed _ = false

-- The new config is on the disk if the call succeeded, or failed only in the restart.
abbrev pub wrote {ℓ} : {A : Type ℓ} → Result A → Bool
wrote (ok a) = true
wrote (err e) = restart_failed e

module _ (env : Env) where
  read_config-files : (path : Text) (w : World) → (read_config env path w).1 ≡ tick w
  unfolding read_config
  read_config-files path w = ground arith

  pub read_config_live :
      (path : Text) (w : World) (f : File)
      → env.fails w.calls ≡ false
      → config_of (w.files (named path)) ≡ ok f
      → read_config env path w ≡ (ok f, tick w)
  unfolding read_config config_of
  read_config_live path w f live h = ground arith

  pub read_config_dead :
      (path : Text) (w : World)
      → env.fails w.calls ≡ true
      → read_config env path w ≡ (err (fail "read"), tick w)
  unfolding read_config
  read_config_dead path w dead = ground arith

module _ (env : Env) {A : Type 0} (change : Change A) (path : Text) (m : Manager) where
  rewrite_dead :
      (w : World)
      → env.fails w.calls ≡ true
      → rewrite env path m change w ≡ (err (wrap "read config" (fail "read")), tick w)
  unfolding rewrite
  rewrite_dead w dead = ground (arith, read_config_dead env path w dead)

  -- A change that refuses leaves no trace.
  rewrite_refused :
      (w : World) (f : File) (e : Error)
      → env.fails w.calls ≡ false
      → config_of (w.files (named path)) ≡ ok f
      → change f (tick w) ≡ err e
      → rewrite env path m change w ≡ (err e, tick w)
  unfolding rewrite
  rewrite_refused w f e live held refused = ground (arith, read_config_live env path w f live held)

  -- what follows the `Write`
  finish : A → Result (Unit {0}) × World → Result A × World
  finish a (err e, w2) = (err (wrap "write config" e), w2)
  finish a (ok _, w2) =
      let (r, w3) = restart env m w2 in
      (elim r [ ok _ ↦ ok a | err e ↦ err (wrap "restart xray" e) ], w3)

  rewrite_changed :
      (w : World) (f f' : File) (a : A)
      → env.fails w.calls ≡ false
      → config_of (w.files (named path)) ≡ ok f
      → change f (tick w) ≡ ok (f', a)
      → rewrite env path m change w ≡ finish a (write_config env path f' (tick w))
  unfolding rewrite finish
  rewrite_changed w f f' a live held changed =
      ground (arith, read_config_live env path w f live held)

  pub rewrite_done :
      (w : World) (f f' : File) (a : A)
      → env.fails w.calls ≡ false
      → config_of (w.files (named path)) ≡ ok f
      → change f (tick w) ≡ ok (f', a)
      → (write_config env path f' (tick w)).0 ≡ ok tt
      → ((w2 : World) → (restart env m w2).0 ≡ ok tt)
      → (rewrite env path m change w).0 ≡ ok a
  unfolding finish
  rewrite_done w f f' a live held changed good again = ground (
    arith,
    rewrite_changed w f f' a live held changed,
    again (write_config env path f' (tick w)).1,
    good,
  )

  finish_files :
      (a : A) (f' : File) (w : World) (q : Text) (r : Result (Unit {0})) (w2 : World)
      → w2.files (named q)
        ≡ (if is_ok r && text_eq path q then some (json (encode_file f')) else w.files (named q))
      → let (r3, w3) = finish a (r, w2) in
        w3.files (named q)
        ≡ (if wrote r3 && text_eq path q then some (json (encode_file f')) else w.files (named q))
  unfolding finish restart
  finish_files a f' w q (err e) w2 h = h
  finish_files a f' w q (ok _) w2 h = elim (Result-cases (restart env m w2).0) [
    | inl (e, bad) ↦ rw bad (rw (restart_guarded env m w2).2 h)
    | inr (_, good) ↦ rw good (rw (restart_guarded env m w2).2 h)
  ]

  -- When the config on the disk can be parsed and the change applies, then afterwards the config
  -- is the changed one, if the call succeeded or failed in the restart, and byte for byte the old
  -- one if it failed before; every other configured path but the backup is as it was.
  pub rewrite_files :
      (w : World) (f f' : File) (a : A) (q : Text)
      → config_of (w.files (named path)) ≡ ok f
      → change f (tick w) ≡ ok (f', a)
      → q ≢ bak path
      → let (r, w') = rewrite env path m change w in
        w'.files (named q)
        ≡ (if wrote r && text_eq path q then some (json (encode_file f')) else w.files (named q))
  rewrite_files w f f' a q held changed apart = elim (Bool-cases (env.fails w.calls)) [
    | inl dead ↦ rw (rewrite_dead w dead) refl
    | inr live ↦
        let (r, w2) = write_config env path f' (tick w) in
        rw (rewrite_changed w f f' a live held changed)
          (finish_files a f' w q r w2 (write_config_atomic env path q f' (tick w) apart))
  ]

  finish_result :
      (a b : A) (r : Result (Unit {0})) (w2 : World) → (finish a (r, w2)).0 ≡ ok b → b ≡ a
  unfolding finish restart
  finish_result a b (err e) w2 h = cc
  finish_result a b (ok _) w2 h = ground arith

  -- A call that succeeds returns what the change made.
  pub rewrite_result :
      (w : World) (f f' : File) (a b : A)
      → config_of (w.files (named path)) ≡ ok f
      → change f (tick w) ≡ ok (f', a)
      → (rewrite env path m change w).0 ≡ ok b
      → b ≡ a
  rewrite_result w f f' a b held changed h = elim (Bool-cases (env.fails w.calls)) [
    | inl dead ↦ ground (arith, rewrite_dead w dead)
    | inr live ↦
        finish_result a b (write_config env path f' (tick w)).0
          (write_config env path f' (tick w)).1
          (rw (← rewrite_changed w f f' a live held changed) h)
  ]

  -- A change that refuses leaves every file as it was, and its error is the call's.
  pub rewrite_refusal :
      (w : World) (f : File) (e : Error)
      → config_of (w.files (named path)) ≡ ok f
      → change f (tick w) ≡ err e
      → ((rewrite env path m change w).1 ≡ tick w)
        × (((rewrite env path m change w).0 ≡ err e)
            ⊎ ((rewrite env path m change w).0 ≡ err (wrap "read config" (fail "read"))))
  rewrite_refusal w f e held refused = elim (Bool-cases (env.fails w.calls)) [
    | inl dead ↦ rw (rewrite_dead w dead) (refl, inr refl)
    | inr live ↦ rw (rewrite_refused w f e live held refused) (refl, inl refl)
  ]

module _ (env : Env) {A : Type 0} (change : Change A) (s : Server) where
  -- What `mutateConfig` makes of the server: the cached state goes only on success.
  pub mutate_config_lem :
      let (r, w') = rewrite env s.conf_path s.manager change s.world in
      mutate_config env change s
      ≡ (r, record s { state_entry = if is_ok r then none else s.state_entry; world = w' })
  unfolding mutate_config
  mutate_config_lem = ground arith
