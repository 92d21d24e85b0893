-- ===== src/Store/Contract.antt =====
-- What the disabled store promises: a list of entries that `Add` extends and `Remove` shortens,
-- or an error that leaves the file as it was.
use flint2_xray_web_console.Base.{
  ◌≡◌, ℕ, ◌+◌, true, false, none, List, [], ◌∷◌, ◌++◌, Text, text_eq_iff, ok, err, fail, arith,
  if◌then◌else◌, All, All-append, ◌≢◌, Option-cases, inl, inr,
}
use flint2_xray_web_console.Base.Errors.{is_ok}
use flint2_xray_web_console.Os.{Env, World, named, tick, bak}
use flint2_xray_web_console.Xray.Model.{Client}
use flint2_xray_web_console.Xray.RoundTrip.Clients.{IsWellformed}
use flint2_xray_web_console.Xray.Disk.Atomic.{path-apart}
use flint2_xray_web_console.Store.Format.{DisabledClient, stored}
use flint2_xray_web_console.Store.RoundTrip.{IsWellformedEntry, stored-encode_store}
use flint2_xray_web_console.Store.Atomic.{write_atomic}
use flint2_xray_web_console.Store.{list, find_entry, write, add, remove_entry, take_entry}

module _ (env : Env) (path : Text) where
  -- The store file stands for this list of entries.
  abbrev pub Holds : World → List DisabledClient → Type 0
  Holds w ds = stored env.is_time (w.files (named path)) ≡ ok ds

  pub list_lem :
      (w : World)
      → list env path w ≡ (
        if env.fails w.calls
            then err (fail "read disabled store")
            else stored env.is_time (w.files (named path)),
        tick w,
      )
  unfolding list
  list_lem w = ground arith

  -- A write that succeeds makes the file stand for the list written.
  pub write-Holds :
      (l : List DisabledClient) (w : World)
      → All (IsWellformedEntry env.is_time) l
      → is_ok (write env path l w).0 ≡ true
      → Holds (write env path l w).1 l
  write-Holds l w wf h = ground (
    arith,
    write_atomic env path path l w (path-apart path),
    text_eq_iff path path,
    stored-encode_store env.is_time l wf,
  )

  pub write_fails :
      (l : List DisabledClient) (w : World)
      → is_ok (write env path l w).0 ≡ false
      → (write env path l w).1.files (named path) ≡ w.files (named path)
  write_fails l w h = ground (arith, write_atomic env path path l w (path-apart path))

  -- the entry that `Add` makes; the clock is read after the list
  abbrev pub entry_at : Client → World → DisabledClient
  entry_at c w = record { client = c; disabled_at = env.now (w.calls + 1) }

  -- On a store file that stands for well-formed entries, with a well-formed client and a clock that
  -- prints times that can be read: Add of a UUID that the store does not hold appends the client
  -- under the current time; it fails on one that the store holds, and a failure leaves the file as
  -- it was.
  pub add_contract :
      (c : Client) (w : World) (ds : List DisabledClient)
      → Holds w ds
      → All (IsWellformedEntry env.is_time) ds
      → IsWellformed c
      → ((n : ℕ) → env.is_time (env.now n) ≡ true)
      → let (r, w') = add env path c w in
        (is_ok r ≡ true → Holds w' (ds ++ entry_at c w ∷ []) × (find_entry c.id ds ≡ none))
        × (is_ok r ≡ false → w'.files (named path) ≡ w.files (named path))
  unfolding add
  add_contract c w ds held wf wc prints =
      let d = entry_at c w in
      let l = ds ++ d ∷ [] in
      let wl =
        All-append (IsWellformedEntry env.is_time) ds (d ∷ []) wf
          (record { client = wc; timed = prints (w.calls + 1) }, tt) in
      (
        (λ succeeded. ground (arith, list_lem w, write-Holds l (tick w) wl)),
        λ failed. ground (arith, list_lem w, write_fails l (tick w)),
      )

  write_frame :
      (q : Text) (l : List DisabledClient) (w : World)
      → q ≢ bak path
      → path ≢ q
      → (write env path l w).1.files (named q) ≡ w.files (named q)
  write_frame q l w apart other =
      ground (arith, write_atomic env path q l w apart, text_eq_iff path q)

  -- Add changes no configured path but the store and its backup.
  pub add_frame :
      (q : Text) (c : Client) (w : World) (ds : List DisabledClient)
      → Holds w ds
      → q ≢ bak path
      → path ≢ q
      → (add env path c w).1.files (named q) ≡ w.files (named q)
  unfolding add
  add_frame q c w ds held apart other =
      ground (arith, list_lem w, write_frame q (ds ++ entry_at c w ∷ []) (tick w) apart other)

  -- Neither does Remove.
  pub remove_frame :
      (q id : Text) (w : World) (ds : List DisabledClient)
      → Holds w ds
      → q ≢ bak path
      → path ≢ q
      → (remove_entry env path id w).1.files (named q) ≡ w.files (named q)
  unfolding remove_entry
  remove_frame q id w ds held apart other = elim (Option-cases (take_entry id ds)) [
    | inl absent ↦ ground (arith, list_lem w)
    | inr ((d, r), found) ↦ ground (arith, list_lem w, write_frame q r (tick w) apart other)
  ]
