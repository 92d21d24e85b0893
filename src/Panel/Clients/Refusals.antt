-- ===== src/Panel/Clients/Refusals.antt =====
-- The errors of the changes that the client endpoints make are not those of a restart.
use flint2_xray_web_console.Base.{
  ◌≡◌, false, Option, none, some, List, [], ◌∷◌, Text, err, Error, arith, inl, inr,
}
use flint2_xray_web_console.Base.Errors.{Result-cases}
use flint2_xray_web_console.Xray.Model.{Client, Inbound, File}
use flint2_xray_web_console.Xray.Clients.{
  first_vless, primary_inbound, inbounds_of, add_client, add_to,
}
use flint2_xray_web_console.Panel.Mutate.Outcome.{restart_failed}
use flint2_xray_web_console.Panel.Clients.{take_client, restore_client}

first_vless-early :
    (l : List Inbound) (e : Error) → first_vless l ≡ err e → restart_failed e ≡ false
unfolding first_vless
first_vless-early [] e h = ground arith
first_vless-early (i ∷ l) e h = ground (arith, first_vless-early l e)

primary-early : (f : File) (e : Error) → primary_inbound f ≡ err e → restart_failed e ≡ false
unfolding primary_inbound
primary-early f e h = first_vless-early (inbounds_of f) e h

add_to-early :
    (uuid : Option Text) (name flow : Text) (f : File) (i : Inbound) (e : Error)
    → add_to uuid name flow f i ≡ err e
    → restart_failed e ≡ false
unfolding add_to
add_to-early none name flow f i e h = ground arith
add_to-early (some id) name flow f i e h = ground arith

pub add_client-early :
    (uuid : Option Text) (name flow : Text) (f : File) (e : Error)
    → add_client uuid name flow f ≡ err e
    → restart_failed e ≡ false
unfolding add_client
add_client-early uuid name flow f e h = elim (Result-cases (primary_inbound f)) [
  | inl (d, none_found) ↦ ground (arith, none_found, primary-early f d)
  | inr (i, found) ↦ ground (arith, found, add_to-early uuid name flow f i e)
]

pub take_client-early :
    (id : Text) (f : File) (e : Error) → take_client id f ≡ err e → restart_failed e ≡ false
unfolding take_client
take_client-early id f e h = ground arith

pub restore_client-early :
    (c : Client) (f : File) (e : Error) → restore_client c f ≡ err e → restart_failed e ≡ false
unfolding restore_client
restore_client-early c f e h = elim (Result-cases (primary_inbound f)) [
  | inl (d, none_found) ↦ ground (arith, none_found, primary-early f d)
  | inr (i, found) ↦ ground (arith, found)
]
