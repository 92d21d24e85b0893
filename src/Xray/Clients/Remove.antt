-- ===== src/Xray/Clients/Remove.antt =====
-- `RemoveClient`: which client leaves, and that the others stay as they were.
use flint2_xray_web_console.Base.{
  inl, inr, Option-cases, subst, ◌≡◌, refl, Bool, true, false, Option, none, some, List, [], ◌∷◌,
  ◌++◌, Text, text_eq, ok, arith, is_some, text_eq_iff, ap, subst, Option-cases,
}
use flint2_xray_web_console.Base.Errors.{>>=-eq-ok, is_ok, Result-cases}
use flint2_xray_web_console.Xray.Clients.Primary.{clients_of-primary, clients_of-set_primary}
use flint2_xray_web_console.Xray.Model.{Client, Inbound, File}
use flint2_xray_web_console.Xray.Clients.{
  primary_inbound, settings_of, find_id, clients_of, remove_id, remove_from, remove_client,
  find_client,
}

-- What taking a client out of a list means: the first of that id, all others in their order.
abbrev pub IsRemoval : Text → List Client → Option (Client × List Client) → Type 0
IsRemoval id l none = find_id id l ≡ none
IsRemoval id l (some (c, r)) =
    (before : List Client) × (after : List Client) × (l ≡ before ++ c ∷ after)
    × (r ≡ before ++ after)
    × (find_id id before ≡ none)
    × (c.id ≡ id)

pub remove_id-IsRemoval : (id : Text) (l : List Client) → IsRemoval id l (remove_id id l)
remove_id-IsRemoval id [] = unfold remove_id find_id in refl
remove_id-IsRemoval id (c ∷ l) =
    go (text_eq c.id id) refl (remove_id id l) refl (remove_id-IsRemoval id l)
  where
    go :
        (b : Bool)
        → text_eq c.id id ≡ b
        → (o : Option (Client × List Client)) → remove_id id l ≡ o
        → IsRemoval id l o
        → IsRemoval id (c ∷ l) (remove_id id (c ∷ l))
    go true e o q h =
        unfold remove_id find_id in rw e ([], l, refl, refl, refl, (text_eq_iff c.id id).0 e)
    go false e none q h = unfold remove_id find_id in rw (e, q) (rw e h)
    go false e (some (d, r)) q (before, after, at, rest, fresh, same) =
        unfold remove_id find_id in
        rw (e, q) (c ∷ before, after, ap (λ t. c ∷ t) at, ap (λ t. c ∷ t) rest, rw e fresh, same)

pub remove_from_run :
    (id : Text) (f f' : File) (c : Client) (i : Inbound)
    → primary_inbound f ≡ ok i
    → remove_from id f i ≡ ok (f', c)
    → (r : List Client) × (remove_id id (settings_of i).clients ≡ some (c, r)) × (clients_of f' ≡ r)
remove_from_run id f f' c i p h = elim (Option-cases (remove_id id (settings_of i).clients)) [
  | inl gone ↦ unfold remove_from in absurd (ground arith)
  | inr ((d, r), taken) ↦ (
    r,
    (unfold remove_from in ground arith),
    unfold remove_from in
        ground (
          arith,
          clients_of-set_primary i
              (record i { settings = some (record (settings_of i) { clients = r }) }) f p refl,
        ),
  )
]

remove_from_splits :
    (id : Text) (f f' : File) (c : Client) (i : Inbound)
    → primary_inbound f ≡ ok i
    → remove_from id f i ≡ ok (f', c)
    → IsRemoval id (clients_of f) (some (c, clients_of f'))
remove_from_splits id f f' c i p h =
    let (r, taken, left) = remove_from_run id f f' c i p h in
    rw (clients_of-primary i f p, left)
      (subst (IsRemoval id (settings_of i).clients) taken
        (remove_id-IsRemoval id (settings_of i).clients))

-- RemoveClient takes out the first client with the UUID and returns it; all other clients stay,
-- in their order.
pub remove_client_splits :
    (id : Text) (f f' : File) (c : Client)
    → remove_client id f ≡ ok (f', c)
    → (before : List Client) × (after : List Client) × (clients_of f ≡ before ++ c ∷ after)
      × (clients_of f' ≡ before ++ after)
      × (find_id id before ≡ none)
      × (c.id ≡ id)
unfolding remove_client
remove_client_splits id f f' c h =
    let (i, p, q) = >>=-eq-ok (primary_inbound f) (remove_from id f) h in
    remove_from_splits id f f' c i p q

find_id-remove_id :
    (id : Text) (l : List Client) → is_some (remove_id id l) ≡ is_some (find_id id l)
unfolding remove_id find_id
find_id-remove_id id [] = refl
find_id-remove_id id (c ∷ l) = ground (arith, find_id-remove_id id l)

remove_from-is_ok :
    (id : Text) (f : File) (i : Inbound)
    → is_ok (remove_from id f i) ≡ is_some (find_id id (settings_of i).clients)
unfolding remove_from find_id
remove_from-is_ok id f i = ground (arith, find_id-remove_id id (settings_of i).clients)

pub find_client-primary :
    (id : Text) (f : File) (i : Inbound)
    → primary_inbound f ≡ ok i
    → find_client id f ≡ find_id id (settings_of i).clients
unfolding find_client
find_client-primary id f i h = rw (h, find_client) (ground arith)

-- RemoveClient succeeds exactly on the UUIDs that FindClient finds.
pub remove_client_succeeds :
    (id : Text) (f : File) → is_ok (remove_client id f) ≡ is_some (find_client id f)
remove_client_succeeds id f = elim (Result-cases (primary_inbound f)) [
  | inl (e, h) ↦ unfold remove_client find_client in ground (arith, h)
  | inr (i, h) ↦
      rw (find_client-primary id f i h)
        (unfold remove_client in ground (arith, h, remove_from-is_ok id f i))
]
