-- ===== src/Json/Map.antt =====
-- Go's `map[string]T`, in the one form that a sorted association list gives it: `encoding/json`
-- emits the keys of a map in this order.
pub mod Sorted
use flint2_xray_web_console.Base.{
  ◌≡◌, refl, Bool, true, false, Option, none, some, List, [], ◌∷◌, arith, Text, text_eq,
  text_eq_iff, text_eq_refl, if◌then◌else◌, or_else, is_some,
}
use flint2_xray_web_console.Base.Bytes.{text_lt}

abbrev pub Map {ℓ} : Type ℓ → Type ℓ
Map A = List (Text × A)

module _ {ℓ} {A : Type ℓ} where
  unfoldable pub lookup : Text → Map A → Option A
  lookup k [] = none
  lookup k ((j, v) ∷ m) = if text_eq j k then some v else lookup k m

  -- `m[k] = v`
  unfoldable pub insert : Text → A → Map A → Map A
  insert k v [] = (k, v) ∷ []
  insert k v ((j, w) ∷ m) =
      if text_eq j k
      then (k, v) ∷ m
      else if text_lt k j
      then (k, v) ∷ (j, w) ∷ m
      else (j, w) ∷ insert k v m

  -- `delete(m, k)`
  unfoldable pub erase : Text → Map A → Map A
  erase k [] = []
  erase k ((j, w) ∷ m) = let rest = erase k m in if text_eq j k then rest else (j, w) ∷ rest

  -- `_, ok := m[k]`
  unfoldable pub has : Text → Map A → Bool
  unfolding lookup
  has k m = is_some (lookup k m)

  -- Entries read in order into a map: of two with one key the later stays.
  unfoldable pub from_entries : List (Text × A) → Map A
  unfolding insert has
  from_entries [] = []
  from_entries ((k, v) ∷ r) = let m = from_entries r in if has k m then m else insert k v m

  pub lookup-insert :
      (k j : Text) (v : A) (m : Map A)
      → lookup j (insert k v m) ≡ (if text_eq k j then some v else lookup j m)
  unfolding lookup insert
  lookup-insert k j v [] = refl
  lookup-insert k j v ((i, w) ∷ m) =
      ground (arith, text_eq_iff k j, text_eq_iff i k, text_eq_iff i j, lookup-insert k j v m)

  pub lookup-erase :
      (k j : Text) (m : Map A) → lookup j (erase k m) ≡ (if text_eq k j then none else lookup j m)
  unfolding lookup erase
  lookup-erase k j [] = ground arith
  lookup-erase k j ((i, w) ∷ m) =
      ground (arith, text_eq_iff k j, text_eq_iff i k, text_eq_iff i j, lookup-erase k j m)

  pub lookup-from_entries_cons :
      (k j : Text) (v : A) (r : List (Text × A))
      → lookup j (from_entries ((k, v) ∷ r))
        ≡ or_else (lookup j (from_entries r)) (if text_eq k j then some v else none)
  unfolding from_entries
  lookup-from_entries_cons k j v r =
      let m = from_entries r in ground (arith, lookup-insert k j v m, text_eq_iff k j)
