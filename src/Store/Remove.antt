-- ===== src/Store/Remove.antt =====
-- What `Remove` of the disabled store does, however it ends.
use flint2_xray_web_console.Base.{
  ◌≡◌, refl, Bool, true, false, Option, none, some, List, [], ◌∷◌, ◌++◌, Text, text_eq, text_eq_iff,
  ok, err, fail, arith, All, inl, inr, Bool-cases, Result, ap,
}
use flint2_xray_web_console.Base.Errors.{is_ok}
use flint2_xray_web_console.Os.{Env, World, named, tick}
use flint2_xray_web_console.Xray.Model.{Client}
use flint2_xray_web_console.Store.Format.{DisabledClient}
use flint2_xray_web_console.Store.RoundTrip.{IsWellformedEntry}
use flint2_xray_web_console.Store.Contract.{Holds, list_lem, write-Holds, write_fails}
use flint2_xray_web_console.Store.{find_entry, take_entry, write, remove_entry}

-- The first entry of the UUID leaves the list, and the others keep their order.
abbrev pub IsTaken :
    Text → List DisabledClient → Option (DisabledClient × List DisabledClient) → Type 0
IsTaken id l none = find_entry id l ≡ none
IsTaken id l (some (d, r)) =
    (before : List DisabledClient) × (after : List DisabledClient) × (l ≡ before ++ d ∷ after)
    × (r ≡ before ++ after)
    × (find_entry id before ≡ none)
    × (d.client.id ≡ id)

pub take_entry-IsTaken : (id : Text) (l : List DisabledClient) → IsTaken id l (take_entry id l)
take_entry-IsTaken id [] = unfold take_entry find_entry in refl
take_entry-IsTaken id (d ∷ l) =
    go (text_eq d.client.id id) refl (take_entry id l) refl (take_entry-IsTaken id l)
  where
    go :
        (b : Bool)
        → text_eq d.client.id id ≡ b
        → (o : Option (DisabledClient × List DisabledClient)) → take_entry id l ≡ o
        → IsTaken id l o
        → IsTaken id (d ∷ l) (take_entry id (d ∷ l))
    go true e o q h =
        unfold take_entry find_entry in
        rw e ([], l, refl, refl, refl, (text_eq_iff d.client.id id).0 e)
    go false e none q h = unfold take_entry find_entry in rw (e, q) (rw e h)
    go false e (some (x, r)) q (before, after, at, rest, fresh, same) =
        unfold take_entry find_entry in
        rw (e, q) (d ∷ before, after, ap (λ t. d ∷ t) at, ap (λ t. d ∷ t) rest, rw e fresh, same)

pub All-without {ℓ} :
    {A : Type 0} (P : A → Type ℓ) (before after : List A) (d : A)
    → All P (before ++ d ∷ after)
    → P d × All P (before ++ after)
All-without P [] after d h = h
All-without P (x ∷ before) after d h =
    let (hd, rest) = All-without P before after d h.1 in (hd, (h.0, rest))

module _ (env : Env) (path : Text) where
  -- How a call of Remove can end.
  abbrev pub Removed : Text → List DisabledClient → World → Result (Option Client) × World → Type 0
  Removed id ds w (err e, w') = w'.files (named path) ≡ w.files (named path)
  Removed id ds w (ok none, w') =
      (find_entry id ds ≡ none) × (w'.files (named path) ≡ w.files (named path))
  Removed id ds w (ok (some c), w') =
      (d : DisabledClient) × (rest : List DisabledClient) × IsTaken id ds (some (d, rest))
      × (c ≡ d.client)
      × Holds env path w' rest

  unread :
      (id : Text) (w : World)
      → env.fails w.calls ≡ true
      → remove_entry env path id w ≡ (err (fail "read disabled store"), tick w)
  unfolding remove_entry
  unread id w dead = ground (arith, list_lem env path w)

  absent :
      (id : Text) (w : World) (ds : List DisabledClient)
      → Holds env path w ds
      → env.fails w.calls ≡ false
      → take_entry id ds ≡ none
      → remove_entry env path id w ≡ (ok none, tick w)
  unfolding remove_entry
  absent id w ds held live e = ground (arith, list_lem env path w)

  -- the tail of `Remove`, after its `write`
  abbrev written : DisabledClient → Result (Unit {0}) × World → Result (Option Client) × World
  written d (r, w') = (elim r [ ok _ ↦ ok (some d.client) | err e ↦ err e ], w')

  present :
      (id : Text) (w : World) (ds : List DisabledClient) (d : DisabledClient)
      (rest : List DisabledClient)
      → Holds env path w ds
      → env.fails w.calls ≡ false
      → take_entry id ds ≡ some (d, rest)
      → remove_entry env path id w ≡ written d (write env path rest (tick w))
  unfolding remove_entry
  present id w ds d rest held live e = ground (arith, list_lem env path w)

  written-Removed :
      (id : Text) (w w' : World) (ds : List DisabledClient) (d : DisabledClient)
      (rest : List DisabledClient) (r : Result (Unit {0}))
      → IsTaken id ds (some (d, rest))
      → (is_ok r ≡ true → Holds env path w' rest)
      → (is_ok r ≡ false → w'.files (named path) ≡ w.files (named path))
      → Removed id ds w (written d (r, w'))
  written-Removed id w w' ds d rest (ok _) t held same = (d, rest, t, refl, held refl)
  written-Removed id w w' ds d rest (err e) t held same = same refl

  pub taken-wellformed :
      (id : Text) (ds : List DisabledClient) (d : DisabledClient) (rest : List DisabledClient)
      → IsTaken id ds (some (d, rest))
      → All (IsWellformedEntry env.is_time) ds
      → IsWellformedEntry env.is_time d × All (IsWellformedEntry env.is_time) rest
  taken-wellformed id ds d rest (before, after, was, left, _, _) wf =
      rw left (All-without (IsWellformedEntry env.is_time) before after d (rw was at wf))

  remove_listed :
      (id : Text) (w : World) (ds : List DisabledClient)
      → Holds env path w ds
      → env.fails w.calls ≡ false
      → (o : Option (DisabledClient × List DisabledClient)) → take_entry id ds ≡ o
      → IsTaken id ds o
      → All (IsWellformedEntry env.is_time) ds
      → Removed id ds w (remove_entry env path id w)
  remove_listed id w ds held live none e t wf = rw (absent id w ds held live e) (t, refl)
  remove_listed id w ds held live (some (d, rest)) e t wf =
      let (r, w') = write env path rest (tick w) in
      rw (present id w ds d rest held live e) (
        written-Removed id w w' ds d rest r t
          (write-Holds env path rest (tick w) (taken-wellformed id ds d rest t wf).1)
          (write_fails env path rest (tick w)))

  -- On a store file that stands for well-formed entries: Remove of a UUID that it does not hold
  -- returns nil and changes nothing; of one that it holds, it returns the first such client and
  -- leaves the other entries in their order; an error leaves the file as it was.
  pub remove_contract :
      (id : Text) (w : World) (ds : List DisabledClient)
      → Holds env path w ds
      → All (IsWellformedEntry env.is_time) ds
      → Removed id ds w (remove_entry env path id w)
  remove_contract id w ds held wf = elim (Bool-cases (env.fails w.calls)) [
    | inl dead ↦ rw (unread id w dead) refl
    | inr live ↦
        remove_listed id w ds held live (take_entry id ds) refl (take_entry-IsTaken id ds) wf
  ]
