-- ===== src/Json.antt =====
-- JSON documents, as `encoding/json` reads and writes them: a value for each `json.RawMessage`,
-- whose whitespace and escapes are not modelled. A number is `int` where its literal is that of
-- an integer, and `frac` otherwise.
pub mod Map
pub mod Decode
pub mod Extra
use flint2_xray_web_console.Base.{◌≡◌, refl, ap, Bool, List, [], ◌∷◌, Text}
use flint2_xray_web_console.Base.Int.{ℤ}

mutual
  pub data Json : Type 0 where
    null : Json
    bool : Bool → Json
    int : ℤ → Json
    frac : Text → Json
    str : Text → Json
    arr : Items → Json
    obj : Members → Json

  pub data Items : Type 0 where
    nil : Items
    cons : Json → Items → Items

  pub data Members : Type 0 where
    end : Members
    member : Text → Json → Members → Members

abbrev pub from_items : Items → List Json
from_items nil = []
from_items (cons v r) = v ∷ from_items r

abbrev pub to_items : List Json → Items
to_items [] = nil
to_items (v ∷ r) = cons v (to_items r)

abbrev pub from_members : Members → List (Text × Json)
from_members end = []
from_members (member k v r) = (k, v) ∷ from_members r

abbrev pub to_members : List (Text × Json) → Members
to_members [] = end
to_members ((k, v) ∷ r) = member k v (to_members r)

pub from-to_items : (l : List Json) → from_items (to_items l) ≡ l
from-to_items [] = refl
from-to_items (v ∷ r) = ap (λ t. v ∷ t) (from-to_items r)

pub from-to_members : (l : List (Text × Json)) → from_members (to_members l) ≡ l
from-to_members [] = refl
from-to_members ((k, v) ∷ r) = ap (λ t. (k, v) ∷ t) (from-to_members r)
