-- ===== src/Xray/Clients/Primary.antt =====
-- What is written through the pointer to the primary inbound is what is read through it.
use flint2_xray_web_console.Base.{
  ◌≡◌, refl, true, false, Option, none, some, List, [], ◌∷◌, ◌++◌, Text, ok, if◌then◌else◌, arith,
  is_some,
}
use flint2_xray_web_console.Base.Errors.{>>=-eq-ok, is_ok}
use flint2_xray_web_console.Xray.Model.{Client, Inbound, File}
use flint2_xray_web_console.Xray.Clients.{
  inbounds_of, is_vless, first_vless, primary_inbound, set_first_vless, set_primary, settings_of,
  with_clients, name_taken, new_client, add_to, add_client, clients_of,
}

first_vless-set :
    (new i : Inbound) (l : List Inbound)
    → is_vless new ≡ true
    → first_vless l ≡ ok i
    → first_vless (set_first_vless new l) ≡ ok new
unfolding first_vless set_first_vless
first_vless-set new i [] v h = cc
first_vless-set new i (j ∷ l) v h = ground (arith, first_vless-set new i l v)

pub primary-set_primary :
    (new i : Inbound) (f : File)
    → is_vless new ≡ true
    → primary_inbound f ≡ ok i
    → primary_inbound (set_primary new f) ≡ ok new
unfolding primary_inbound set_primary
primary-set_primary new i f v h = ground (arith, first_vless-set new i (inbounds_of f) v)

-- The inbound found is a VLESS inbound.
first_vless-is_vless : (i : Inbound) (l : List Inbound) → first_vless l ≡ ok i → is_vless i ≡ true
unfolding first_vless
first_vless-is_vless i [] h = cc
first_vless-is_vless i (j ∷ l) h = ground (arith, first_vless-is_vless i l)

pub primary-is_vless : (i : Inbound) (f : File) → primary_inbound f ≡ ok i → is_vless i ≡ true
unfolding primary_inbound
primary-is_vless i f h = first_vless-is_vless i (inbounds_of f) h

pub clients_of-primary :
    (i : Inbound) (f : File) → primary_inbound f ≡ ok i → clients_of f ≡ (settings_of i).clients
unfolding clients_of
clients_of-primary i f h = rw (h, clients_of)

-- After a write of the client list through the primary inbound, that list is the file's.
pub clients_of-set_primary :
    (i new : Inbound) (f : File)
    → primary_inbound f ≡ ok i
    → new.protocol ≡ i.protocol
    → clients_of (set_primary new f) ≡ (settings_of new).clients
unfolding is_vless
clients_of-set_primary i new f h same =
    clients_of-primary new (set_primary new f)
      (primary-set_primary new i f (rw same (primary-is_vless i f h)) h)

add_to_appends :
    (uuid : Option Text) (name flow : Text) (f f' : File) (c : Client) (i : Inbound)
    → primary_inbound f ≡ ok i
    → add_to uuid name flow f i ≡ ok (f', c)
    → (clients_of f' ≡ clients_of f ++ c ∷ [])
      × (uuid ≡ some c.id)
      × (c ≡ new_client c.id name flow)
      × (name_taken name (clients_of f) ≡ false)
add_to_appends none name flow f f' c i p h = unfold add_to in ground arith
add_to_appends (some id) name flow f f' c i p h =
    let l = (settings_of i).clients in
    let d = new_client id name flow in
    unfold add_to in
    ground (
      arith,
      clients_of-primary i f p,
      clients_of-set_primary i (with_clients (l ++ d ∷ []) i) f p refl,
    )

-- AddClient appends one client, which has the UUID drawn, the name and the flow asked for.
pub add_client_appends :
    (uuid : Option Text) (name flow : Text) (f f' : File) (c : Client)
    → add_client uuid name flow f ≡ ok (f', c)
    → (clients_of f' ≡ clients_of f ++ c ∷ [])
      × (uuid ≡ some c.id)
      × (c ≡ new_client c.id name flow)
      × (name_taken name (clients_of f) ≡ false)
unfolding add_client
add_client_appends uuid name flow f f' c h =
    let (i, p, q) = >>=-eq-ok (primary_inbound f) (add_to uuid name flow f) h in
    add_to_appends uuid name flow f f' c i p q

-- AddClient succeeds exactly when there is a VLESS inbound, the name is free there and a UUID was
-- drawn.
pub add_client_succeeds :
    (uuid : Option Text) (name flow : Text) (f : File)
    → is_ok (add_client uuid name flow f) ≡ (
        if is_ok (primary_inbound f)
        then (if name_taken name (clients_of f) then false else is_some uuid)
        else false)
unfolding add_client clients_of
add_client_succeeds uuid name flow f = ground arith
