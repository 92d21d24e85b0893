-- ===== src/Xray/Clients/Names.antt =====
-- No two clients share a name: `AddClient` and `RemoveClient` keep that.
use flint2_xray_web_console.Base.{
  ◌≡◌, refl, false, List, [], ◌∷◌, ◌++◌, Text, text_eq_iff, ok, arith, Option, subst, ap, sym,
}
use flint2_xray_web_console.Xray.Model.{Client, File}
use flint2_xray_web_console.Xray.Clients.{name_taken, clients_of, add_client, remove_client}
use flint2_xray_web_console.Xray.Clients.Primary.{add_client_appends}
use flint2_xray_web_console.Xray.Clients.Remove.{remove_client_splits}

-- No name but the empty one stands twice.
abbrev pub HasDistinctNames : List Client → Type 0
HasDistinctNames [] = Unit
HasDistinctNames (c ∷ l) = (name_taken c.email l ≡ false) × HasDistinctNames l

name_taken-append :
    (name : Text) (l : List Client) (c : Client)
    → name_taken name l ≡ false
    → name_taken name (c ∷ []) ≡ false
    → name_taken name (l ++ c ∷ []) ≡ false
unfolding name_taken
name_taken-append name [] c h k = k
name_taken-append name (d ∷ l) c h k = ground (arith, name_taken-append name l c)

name_taken-swap :
    (c d : Client) → name_taken d.email (c ∷ []) ≡ false → name_taken c.email (d ∷ []) ≡ false
unfolding name_taken
name_taken-swap c d h = ground (arith, text_eq_iff d.email c.email, text_eq_iff c.email d.email)

name_taken_parts :
    (name : Text) (d : Client) (l : List Client)
    → name_taken name (d ∷ l) ≡ false
    → (name_taken name (d ∷ []) ≡ false) × (name_taken name l ≡ false)
unfolding name_taken
name_taken_parts name d l h = ground arith

append-HasDistinctNames :
    (l : List Client) (c : Client)
    → HasDistinctNames l
    → name_taken c.email l ≡ false
    → HasDistinctNames (l ++ c ∷ [])
append-HasDistinctNames [] c h k = unfold name_taken in (refl, tt)
append-HasDistinctNames (d ∷ l) c h k =
    let (apart, free) = name_taken_parts c.email d l k in
    (
      name_taken-append d.email l c h.0 (name_taken-swap d c apart),
      append-HasDistinctNames l c h.1 free,
    )

name_taken-drop :
    (name : Text) (l r : List Client) (c : Client)
    → name_taken name (l ++ c ∷ r) ≡ false
    → name_taken name (l ++ r) ≡ false
unfolding name_taken
name_taken-drop name [] r c h = ground arith
name_taken-drop name (d ∷ l) r c h = ground (arith, name_taken-drop name l r c)

drop-HasDistinctNames :
    (l r : List Client) (c : Client) → HasDistinctNames (l ++ c ∷ r) → HasDistinctNames (l ++ r)
drop-HasDistinctNames [] r c h = h.1
drop-HasDistinctNames (d ∷ l) r c h =
    (name_taken-drop d.email l r c h.0, drop-HasDistinctNames l r c h.1)

-- Where no two clients share a non-empty name, a successful AddClient leaves it so.
pub add_client-HasDistinctNames :
    (uuid : Option Text) (name flow : Text) (f f' : File) (c : Client)
    → add_client uuid name flow f ≡ ok (f', c)
    → HasDistinctNames (clients_of f)
    → HasDistinctNames (clients_of f')
add_client-HasDistinctNames uuid name flow f f' c h d =
    let (appended, drawn, made, free) = add_client_appends uuid name flow f f' c h in
    rw appended (
      append-HasDistinctNames (clients_of f) c d (
        subst (λ e. name_taken e (clients_of f) ≡ false) (ap (λ (x : Client). x.email) (sym made))
          free))

-- A successful RemoveClient leaves it so too.
pub remove_client-HasDistinctNames :
    (id : Text) (f f' : File) (c : Client)
    → remove_client id f ≡ ok (f', c)
    → HasDistinctNames (clients_of f)
    → HasDistinctNames (clients_of f')
remove_client-HasDistinctNames id f f' c h d =
    let (before, after, was, left, _, _) = remove_client_splits id f f' c h in
    rw left (drop-HasDistinctNames before after c (rw was at d))
