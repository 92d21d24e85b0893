-- ===== src/Panel/Clients/Patch.antt =====
-- PATCH /api/clients/{id}: what it makes of the client.
use flint2_xray_web_console.Base.{
  inl, inr, ◌≡◌, refl, false, Option, none, some, List, Text, ok, arith, is_nil, ◌||◌, Option-cases,
  subst, sym, ap, ◌∙◌, true, text_eq, not, ◌&&◌, [], ◌∷◌, ◌++◌, All, Bool-cases,
}
use flint2_xray_web_console.Base.Strings.{trim_space}
use flint2_xray_web_console.Xray.Model.{Client, File, Inbound, Settings}
use flint2_xray_web_console.Panel.Clients.Requests.{PatchRequest}
use flint2_xray_web_console.Panel.Clients.{
  renamed, reflowed, name_collides, patch_client, set_client,
}
use flint2_xray_web_console.Xray.Clients.Rewritten.{Rewritten, set_primary-Rewritten}
use flint2_xray_web_console.Xray.Clients.{
  find_client, primary_inbound, settings_of, set_primary, with_clients, find_id, empty_settings,
}
use flint2_xray_web_console.Base.Errors.{Result-cases}

-- A name asked for is not empty, and no client with another UUID has it.
abbrev pub IsFree : Text → Option Text → Text → List Client → Type 0
IsFree id none name l = Unit
IsFree id (some n) name l =
    (is_nil name ≡ false)
    × All (λ (d : Client). (not (text_eq d.id id) && text_eq d.email name) ≡ false) l

-- The client after the patch: the name trimmed, free and not empty, the flow as it is, and all else
-- as it was.
pub record Revised (id : Text) (req : PatchRequest) (l : List Client) (was c : Client)
    : Type 0 where
  pub same_id : c.id ≡ was.id
  pub same_level : c.level ≡ was.level
  pub same_extra : c.extra ≡ was.extra
  pub name : c.email ≡ elim req.name [ none ↦ was.email | some n ↦ trim_space n ]
  pub flow : c.flow ≡ elim req.flow [ none ↦ was.flow | some s ↦ s ]
  pub free : IsFree id req.name c.email l

name_collides-All :
    (id name : Text) (l : List Client)
    → name_collides id name l ≡ false
    → All (λ (d : Client). (not (text_eq d.id id) && text_eq d.email name) ≡ false) l
unfolding name_collides
name_collides-All id name [] h = tt
name_collides-All id name (d ∷ l) h = (ground arith, name_collides-All id name l (ground arith))

IsFree-name :
    (id : Text) (o : Option Text) (name : Text) (l : List Client)
    → elim o [ none ↦ false | some n ↦ is_nil name || name_collides id name l ] ≡ false
    → IsFree id o name l
IsFree-name id none name l h = tt
IsFree-name id (some n) name l h = (ground arith, name_collides-All id name l (ground arith))

renamed_lem :
    (id : Text) (name : Option Text) (l : List Client) (was d : Client)
    → renamed id name l was ≡ ok d
    → (d.id ≡ was.id)
      × (d.level ≡ was.level)
      × (d.extra ≡ was.extra)
      × (d.flow ≡ was.flow)
      × (d.email ≡ elim name [ none ↦ was.email | some n ↦ trim_space n ])
      × (elim name [ none ↦ false | some n ↦ is_nil d.email || name_collides id d.email l ] ≡ false)
unfolding renamed
renamed_lem id none l was d h = ground arith
renamed_lem id (some n) l was d h = ground arith

revised :
    (id : Text) (req : PatchRequest) (l : List Client) (was d : Client)
    → renamed id req.name l was ≡ ok d
    → (flow : Option Text) → req.flow ≡ flow
    → Revised id req l was (reflowed flow d)
revised id req l was d h none q =
    let (i, v, x, w, n, u) = renamed_lem id req.name l was d h in
    record {
      same_id = i;
      same_level = v;
      same_extra = x;
      name = n;
      flow = rw q w;
      free = IsFree-name id req.name d.email l u;
    }
revised id req l was d h (some s) q =
    let (i, v, x, w, n, u) = renamed_lem id req.name l was d h in
    record {
      same_id = i;
      same_level = v;
      same_extra = x;
      name = n;
      flow = rw q refl;
      free = IsFree-name id req.name d.email l u;
    }

patched_both :
    (id : Text) (req : PatchRequest) (f f' : File) (c : Client) (i : Inbound) (was d : Client)
    → primary_inbound f ≡ ok i
    → find_client id f ≡ some was
    → renamed id req.name (settings_of i).clients was ≡ ok d
    → patch_client id req f ≡ ok (f', c)
    → (c ≡ reflowed req.flow d)
      × (f' ≡ set_primary (with_clients (set_client id c (settings_of i).clients) i) f)
patched_both id req f f' c i was d p found q h = unfold patch_client in ground (arith, found, p, q)

patched_at :
    (id : Text) (req : PatchRequest) (f f' : File) (c : Client)
    → patch_client id req f ≡ ok (f', c)
    → (i : Inbound) × (was : Client) × (d : Client) × (primary_inbound f ≡ ok i)
      × (find_client id f ≡ some was)
      × (renamed id req.name (settings_of i).clients was ≡ ok d)
      × (c ≡ reflowed req.flow d)
      × (f' ≡ set_primary (with_clients (set_client id c (settings_of i).clients) i) f)
patched_at id req f f' c h = elim (Option-cases (find_client id f)) [
  | inl gone ↦ unfold patch_client in absurd (ground (arith, gone))
  | inr (was, found) ↦ elim (Result-cases (primary_inbound f)) [
    | inl (e, p) ↦ unfold patch_client in absurd (ground (arith, found, p))
    | inr (i, p) ↦ elim (Result-cases (renamed id req.name (settings_of i).clients was)) [
      | inl (e, q) ↦ unfold patch_client in absurd (ground (arith, found, p, q))
      | inr (d, q) ↦
          let (made, at) = patched_both id req f f' c i was d p found q h in
          (i, was, d, p, found, q, made, at)
    ]
  ]
]

set_client_splits :
    (id : Text) (was c : Client) (l : List Client)
    → find_id id l ≡ some was
    → (before : List Client) × (after : List Client) × (l ≡ before ++ was ∷ after)
      × (set_client id c l ≡ before ++ c ∷ after)
      × All (λ (d : Client). text_eq d.id id ≡ false) before
      × (text_eq was.id id ≡ true)
unfolding find_id set_client
set_client_splits id was c [] h = absurd (ground arith)
set_client_splits id was c (d ∷ l) h = elim (Bool-cases (text_eq d.id id)) [
  | inl same ↦ ([], l, ground arith, ground arith, tt, ground arith)
  | inr other ↦
      let (before, after, split, put, passed, found) =
        set_client_splits id was c l (ground arith) in
      (d ∷ before, after, ap (λ k. d ∷ k) split, ground arith, (other, passed), found)
]

-- the settings that hold the client
held :
    (id : Text) (f : File) (i : Inbound) (was : Client)
    → primary_inbound f ≡ ok i
    → find_client id f ≡ some was
    → (st : Settings) × (i.settings ≡ some st) × (find_id id st.clients ≡ some was)
unfolding find_client
held id f i was p h = elim (Option-cases i.settings) [
  | inl gone ↦ absurd (ground (arith, p, gone))
  | inr (st, at) ↦ (st, at, ground (arith, p, at))
]

put_back :
    (i : Inbound) (st : Settings) (l : List Client)
    → i.settings ≡ some st
    → with_clients l i ≡ record i { settings = some (record st { clients = l }) }
put_back i st l at =
    ap
      (λ o. record i {
        settings = some (record (elim o [ none ↦ empty_settings | some s ↦ s ]) { clients = l });
      })
      at

settings_are : (i : Inbound) (st : Settings) → i.settings ≡ some st → settings_of i ≡ st
settings_are i st at = ground (arith, at)

-- A patch that applies finds the first client with the UUID in the first VLESS inbound and puts the
-- revised client in its place: a name asked for is trimmed, not empty and had by no client with
-- another UUID, a flow asked for is taken as it is, and all else of the client is as it was. The
-- clients before and after it, everything else of the inbound, the other inbounds and everything
-- else of the file stay.
pub patch_client_lem :
    (id : Text) (req : PatchRequest) (f f' : File) (c : Client)
    → patch_client id req f ≡ ok (f', c)
    → (i : Inbound) × (st : Settings) × (was : Client) × (before : List Client) × (after : List
        Client)
      × (primary_inbound f ≡ ok i)
      × (i.settings ≡ some st)
      × (st.clients ≡ before ++ was ∷ after)
      × All (λ (d : Client). text_eq d.id id ≡ false) before
      × (text_eq was.id id ≡ true)
      × Revised id req st.clients was c
      × Rewritten f f' i
          (record i { settings = some (record st { clients = before ++ c ∷ after }) })
patch_client_lem id req f f' c h =
    let (i, was, d, p, found, q, made, at) = patched_at id req f f' c h in
    let (st, on, there) = held id f i was p found in
    let same = settings_are i st on in
    let l = (settings_of i).clients in
    let (before, after, split, put, passed, hit) = set_client_splits id was c st.clients there in
    let put' : set_client id c l ≡ before ++ c ∷ after =
      ap (λ (x : Settings). set_client id c x.clients) same ∙ put in
    let whole : with_clients (set_client id c l) i
        ≡ record i { settings = some (record st { clients = before ++ c ∷ after }) } =
      put_back i st (set_client id c l) on
      ∙ ap (λ k. record i { settings = some (record st { clients = k }) }) put' in
    (
      i,
      st,
      was,
      before,
      after,
      p,
      on,
      split,
      passed,
      hit,
      subst (λ (x : Settings). Revised id req x.clients was c) same
          (subst (Revised id req l was) (sym made) (revised id req l was d q req.flow refl)),
      subst (λ j. Rewritten f f' i j) whole
          (subst (λ g. Rewritten f g i (with_clients (set_client id c l) i)) (sym at)
            (set_primary-Rewritten i (with_clients (set_client id c l) i) f p)),
    )
