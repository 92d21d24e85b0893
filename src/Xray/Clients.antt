-- ===== src/Xray/Clients.antt =====
-- internal/xray/clients.go: the clients of the first VLESS inbound. A pointer into the file is
-- the value read through it, and a write through it is `set_primary`. The random UUID of
-- github.com/google/uuid is an argument, `none` where `uuid.NewRandom` fails.
pub mod Primary
pub mod Rewritten
pub mod Remove
pub mod Names
pub mod Wellformed
use flint2_xray_web_console.Base.{
  Bool, true, false, Option, none, some, List, [], ◌∷◌, ◌++◌, Text, codes, text_eq, Result, ok, err,
  fail, if◌then◌else◌, ◌&&◌, ◌||◌, not, is_nil,
}
use flint2_xray_web_console.Base.Errors.{◌>>=◌}
use flint2_xray_web_console.Xray.Model.{Client, Settings, Inbound, File}

-- `range f.Inbounds`, where a nil slice has no elements
abbrev pub inbounds_of : File → List Inbound
inbounds_of f = elim f.inbounds [ none ↦ [] | some l ↦ l ]

unfoldable pub is_vless : Inbound → Bool
is_vless i = text_eq i.protocol (codes "vless")

unfoldable pub first_vless : List Inbound → Result Inbound
first_vless [] = err (fail "no VLESS inbound found in config")
first_vless (i ∷ l) = if is_vless i then ok i else first_vless l

unfoldable pub primary_inbound : File → Result Inbound
unfolding first_vless
primary_inbound f = first_vless (inbounds_of f)

-- a write through the pointer that `first_vless` returns
unfoldable pub set_first_vless : Inbound → List Inbound → List Inbound
set_first_vless new [] = []
set_first_vless new (i ∷ l) = if is_vless i then new ∷ l else i ∷ set_first_vless new l

abbrev pub map_inbounds :
    (List Inbound → List Inbound) → Option (List Inbound) → Option (List Inbound)
map_inbounds g none = none
map_inbounds g (some l) = some (g l)

unfoldable pub set_primary : Inbound → File → File
unfolding set_first_vless
set_primary new f = record f { inbounds = map_inbounds (set_first_vless new) f.inbounds }

abbrev pub empty_settings : Settings
empty_settings = record { decryption = []; clients = []; extra = [] }

-- `if in.Settings == nil { in.Settings = &Settings{} }`
abbrev pub settings_of : Inbound → Settings
settings_of i = elim i.settings [ none ↦ empty_settings | some s ↦ s ]

-- the inbound after `in.Settings.Clients = l`
abbrev pub with_clients : List Client → Inbound → Inbound
with_clients l i = record i { settings = some (record (settings_of i) { clients = l }) }

-- `c.Email != "" && c.Email == name` for some client
unfoldable pub name_taken : Text → List Client → Bool
name_taken name [] = false
name_taken name (c ∷ l) = (not (is_nil c.email) && text_eq c.email name) || name_taken name l

abbrev pub new_client : Text → Text → Text → Client
new_client id name flow = record { id = id; flow = flow; email = name; level = none; extra = [] }

-- `AddClient` past `PrimaryInbound`
unfoldable pub add_to : Option Text → Text → Text → File → Inbound → Result (File × Client)
unfolding set_primary name_taken
add_to uuid name flow f i =
    let l = (settings_of i).clients in
    if name_taken name l then err (fail "client with this name already exists") else elim uuid [
      | none ↦ err (fail "generate uuid")
      | some id ↦
          let c = new_client id name flow in ok (set_primary (with_clients (l ++ c ∷ []) i) f, c)
    ]

unfoldable pub add_client : Option Text → Text → Text → File → Result (File × Client)
unfolding primary_inbound add_to
add_client uuid name flow f = primary_inbound f >>= add_to uuid name flow f

unfoldable pub find_id : Text → List Client → Option Client
find_id id [] = none
find_id id (c ∷ l) = if text_eq c.id id then some c else find_id id l

-- The clients that the panel sees: those of the first VLESS inbound.
unfoldable pub clients_of : File → List Client
unfolding primary_inbound
clients_of f = elim (primary_inbound f) [ err e ↦ [] | ok i ↦ (settings_of i).clients ]

unfoldable pub find_client : Text → File → Option Client
unfolding primary_inbound find_id
find_client id f = elim (primary_inbound f) [
  | err e ↦ none
  | ok i ↦ elim i.settings [ none ↦ none | some s ↦ find_id id s.clients ]
]

-- the loop of `RemoveClient`: the client, and the slice without its first occurrence
unfoldable pub remove_id : Text → List Client → Option (Client × List Client)
remove_id id [] = none
remove_id id (c ∷ l) =
    if text_eq c.id id
    then some (c, l)
    else elim (remove_id id l) [ none ↦ none | some (d, r) ↦ some (d, c ∷ r) ]

-- `RemoveClient` past `PrimaryInbound`
unfoldable pub remove_from : Text → File → Inbound → Result (File × Client)
unfolding set_primary remove_id
remove_from id f i = elim i.settings [
  | none ↦ err (fail "client not found")
  | some s ↦ elim (remove_id id s.clients) [
    | none ↦ err (fail "client not found")
    | some (c, rest) ↦
        ok (set_primary (record i { settings = some (record s { clients = rest }) }) f, c)
  ]
]

unfoldable pub remove_client : Text → File → Result (File × Client)
unfolding primary_inbound remove_from
remove_client id f = primary_inbound f >>= remove_from id f
