-- ===== src/Xray/Clients/Wellformed.antt =====
-- The operations on clients keep the file well formed, so that what is written reads back.
use flint2_xray_web_console.Base.{
  ◌≡◌, true, List, [], ◌∷◌, ◌++◌, Text, ok, arith, Option, none, some, subst, sym, All, All-append,
  Bool-cases, inl, inr, Option-cases,
}
use flint2_xray_web_console.Xray.RoundTrip.Stream.{Optional}
use flint2_xray_web_console.Xray.Model.{Client, Settings, Inbound, File}
use flint2_xray_web_console.Xray.RoundTrip.{IsWellformedInbound, IsWellformedFile}
use flint2_xray_web_console.Xray.RoundTrip.Clients.{IsWellformed, IsWellformedSettings}
use flint2_xray_web_console.Xray.Clients.{
  first_vless, primary_inbound, set_first_vless, set_primary, settings_of, with_clients, new_client,
  inbounds_of, empty_settings, is_vless, remove_client, add_client, add_to, map_inbounds,
  remove_from, remove_id,
}
use flint2_xray_web_console.Base.Errors.{>>=-eq-ok}
use flint2_xray_web_console.Xray.Clients.Remove.{IsRemoval, remove_id-IsRemoval}

first_vless-here :
    (j i : Inbound) (l : List Inbound) → is_vless j ≡ true → first_vless (j ∷ l) ≡ ok i → j ≡ i
unfolding first_vless
first_vless-here j i l v h = ground arith

first_vless-IsWellformed :
    (i : Inbound) (l : List Inbound)
    → All IsWellformedInbound l
    → first_vless l ≡ ok i
    → IsWellformedInbound i
unfolding first_vless
first_vless-IsWellformed i [] w h = absurd (ground arith)
first_vless-IsWellformed i (j ∷ l) w h = elim (Bool-cases (is_vless j)) [
  | inl found ↦ subst IsWellformedInbound (first_vless-here j i l found h) w.0
  | inr other ↦ first_vless-IsWellformed i l w.1 (ground arith)
]

set_first_vless-IsWellformed :
    (new : Inbound) (l : List Inbound)
    → IsWellformedInbound new
    → All IsWellformedInbound l
    → All IsWellformedInbound (set_first_vless new l)
unfolding set_first_vless
set_first_vless-IsWellformed new [] n w = tt
set_first_vless-IsWellformed new (j ∷ l) n w = elim (Bool-cases (is_vless j)) [
  | inl found ↦ rw found (n, w.1)
  | inr other ↦ rw other (w.0, set_first_vless-IsWellformed new l n w.1)
]

listed :
    (o : Option (List Inbound))
    → Optional (All IsWellformedInbound) o
    → All IsWellformedInbound (elim o [ none ↦ [] | some l ↦ l ])
listed none w = tt
listed (some l) w = w

replaced :
    (new : Inbound) (o : Option (List Inbound))
    → IsWellformedInbound new
    → Optional (All IsWellformedInbound) o
    → Optional (All IsWellformedInbound) (map_inbounds (set_first_vless new) o)
replaced new none n w = tt
replaced new (some l) n w = set_first_vless-IsWellformed new l n w

configured :
    (o : Option Settings)
    → Optional IsWellformedSettings o
    → IsWellformedSettings (elim o [ none ↦ empty_settings | some s ↦ s ])
configured none w = record { clients = tt; bag = (tt, tt) }
configured (some s) w = w

pub primary-IsWellformed :
    (i : Inbound) (f : File) → IsWellformedFile f → primary_inbound f ≡ ok i → IsWellformedInbound i
unfolding primary_inbound
primary-IsWellformed i f w h =
    first_vless-IsWellformed i (inbounds_of f) (listed f.inbounds w.inbounds) h

pub set_primary-IsWellformed :
    (new : Inbound) (f : File)
    → IsWellformedInbound new
    → IsWellformedFile f
    → IsWellformedFile (set_primary new f)
unfolding set_primary
set_primary-IsWellformed new f n w = record {
  inbounds = replaced new f.inbounds n w.inbounds;
  bag = w.bag;
}

pub settings-IsWellformed :
    (i : Inbound) → IsWellformedInbound i → IsWellformedSettings (settings_of i)
settings-IsWellformed i w = configured i.settings w.settings

pub with_clients-IsWellformed :
    (l : List Client) (i : Inbound)
    → IsWellformedInbound i
    → All IsWellformed l
    → IsWellformedInbound (with_clients l i)
with_clients-IsWellformed l i w a = record {
  settings = record { clients = a; bag = (settings-IsWellformed i w).bag };
  stream = w.stream;
  bag = w.bag;
}

add_to_file :
    (uuid : Option Text) (name flow : Text) (f f' : File) (c : Client) (i : Inbound)
    → add_to uuid name flow f i ≡ ok (f', c)
    → (f' ≡ set_primary (with_clients ((settings_of i).clients ++ c ∷ []) i) f)
      × (c ≡ new_client c.id name flow)
unfolding add_to
add_to_file none name flow f f' c i h = absurd (ground arith)
add_to_file (some id) name flow f f' c i h = ground arith

new_client-IsWellformed : (id name flow : Text) → IsWellformed (new_client id name flow)
new_client-IsWellformed id name flow = record { level_fits = tt; bag = (tt, tt) }

-- A successful AddClient keeps the file well formed.
pub add_client-IsWellformed :
    (uuid : Option Text) (name flow : Text) (f f' : File) (c : Client)
    → add_client uuid name flow f ≡ ok (f', c)
    → IsWellformedFile f
    → IsWellformedFile f'
unfolding add_client
add_client-IsWellformed uuid name flow f f' c h w =
    let (i, p, q) = >>=-eq-ok (primary_inbound f) (add_to uuid name flow f) h in
    let (at, made) = add_to_file uuid name flow f f' c i q in
    let wi = primary-IsWellformed i f w p in
    let wc = subst IsWellformed (sym made) (new_client-IsWellformed c.id name flow) in
    let l = (settings_of i).clients in
    let all = All-append IsWellformed l (c ∷ []) (settings-IsWellformed i wi).clients (wc, tt) in
    rw at (set_primary-IsWellformed _ f (with_clients-IsWellformed (l ++ c ∷ []) i wi all) w)

All-drop :
    (before after : List Client) (c : Client)
    → All IsWellformed (before ++ c ∷ after)
    → IsWellformed c × All IsWellformed (before ++ after)
All-drop [] after c h = h
All-drop (d ∷ before) after c h = let (hc, rest) = All-drop before after c h.1 in (hc, (h.0, rest))

removal-IsWellformed :
    (id : Text) (l : List Client) (c : Client) (r : List Client)
    → IsRemoval id l (some (c, r))
    → All IsWellformed l
    → IsWellformed c × All IsWellformed r
removal-IsWellformed id l c r (before, after, was, left, _, _) w =
    rw left (All-drop before after c (rw was at w))

remove_from_file :
    (id : Text) (f f' : File) (c : Client) (i : Inbound)
    → remove_from id f i ≡ ok (f', c)
    → (r : List Client) × (remove_id id (settings_of i).clients ≡ some (c, r))
      × (f' ≡ set_primary (with_clients r i) f)
remove_from_file id f f' c i h = elim (Option-cases (remove_id id (settings_of i).clients)) [
  | inl gone ↦ unfold remove_from in absurd (ground arith)
  | inr ((d, r), taken) ↦
      (r, (unfold remove_from in ground arith), unfold remove_from in ground arith)
]

-- A successful RemoveClient keeps the file well formed, and the client it returns is well formed.
pub remove_client-IsWellformed :
    (id : Text) (f f' : File) (c : Client)
    → remove_client id f ≡ ok (f', c)
    → IsWellformedFile f
    → IsWellformed c × IsWellformedFile f'
unfolding remove_client
remove_client-IsWellformed id f f' c h w =
    let (i, p, q) = >>=-eq-ok (primary_inbound f) (remove_from id f) h in
    let (r, taken, at) = remove_from_file id f f' c i q in
    let wi = primary-IsWellformed i f w p in
    let l = (settings_of i).clients in
    let removal = subst (IsRemoval id l) taken (remove_id-IsRemoval id l) in
    let (wc, wr) = removal-IsWellformed id l c r removal (settings-IsWellformed i wi).clients in
    (wc, rw at (set_primary-IsWellformed _ f (with_clients-IsWellformed r i wi wr) w))
