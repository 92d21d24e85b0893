-- ===== src/Json/Map/Sorted.antt =====
-- Sorted maps: every operation keeps them sorted, and two with the same lookups are equal.
use flint2_xray_web_console.Base.{
  subst, ◌≡◌, refl, true, none, some, List, [], ◌∷◌, arith, Text, text_eq, text_eq_iff,
  text_eq_refl, inl, inr, Bool-cases,
}
use flint2_xray_web_console.Base.Bytes.{text_lt, text_lt_irrefl, text_lt_trans, text_lt_total}
use flint2_xray_web_console.Json.Map.{
  Map, lookup, insert, erase, from_entries, lookup-from_entries_cons,
}

module _ {ℓ} {A : Type ℓ} where
  -- Every key of `m` comes after `k`.
  abbrev pub IsAbove : Text → Map A → Type 0
  IsAbove k [] = Unit
  IsAbove k ((j, v) ∷ m) = (text_lt k j ≡ true) × IsAbove k m

  abbrev pub IsSorted : Map A → Type 0
  IsSorted [] = Unit
  IsSorted ((k, v) ∷ m) = IsAbove k m × IsSorted m

  IsAbove-trans : (j k : Text) (m : Map A) → text_lt j k ≡ true → IsAbove k m → IsAbove j m
  IsAbove-trans j k [] h a = tt
  IsAbove-trans j k ((i, v) ∷ m) h a = (text_lt_trans j k i h a.0, IsAbove-trans j k m h a.1)

  pub lookup-above : (k : Text) (m : Map A) → IsAbove k m → lookup k m ≡ none
  unfolding lookup
  lookup-above k [] a = refl
  lookup-above k ((j, v) ∷ m) a =
      ground (arith, text_eq_iff j k, text_lt_irrefl k, lookup-above k m a.1)

  IsAbove-insert :
      (i k : Text) (v : A) (m : Map A) → text_lt i k ≡ true → IsAbove i m → IsAbove i (insert k v m)
  unfolding insert
  IsAbove-insert i k v [] h a = (h, tt)
  IsAbove-insert i k v ((j, w) ∷ m) h a = ground (arith, IsAbove-insert i k v m h a.1)

  pub insert-IsSorted : (k : Text) (v : A) (m : Map A) → IsSorted m → IsSorted (insert k v m)
  unfolding insert
  insert-IsSorted k v [] s = (tt, tt)
  insert-IsSorted k v ((j, w) ∷ m) s = elim (Bool-cases (text_eq j k)) [
    | inl same ↦ let e : j ≡ k = (text_eq_iff j k).0 same in ground arith
    | inr other ↦ elim (Bool-cases (text_lt k j)) [
      | inl before ↦ ground (arith, IsAbove-trans k j m before s.0)
      | inr after ↦ ground (
        arith,
        text_lt_total k j,
        text_eq_iff j k,
        IsAbove-insert j k v m,
        insert-IsSorted k v m s.1,
      )
    ]
  ]

  IsAbove-erase : (i k : Text) (m : Map A) → IsAbove i m → IsAbove i (erase k m)
  unfolding erase
  IsAbove-erase i k [] a = tt
  IsAbove-erase i k ((j, w) ∷ m) a = ground (arith, IsAbove-erase i k m a.1)

  pub erase-IsSorted : (k : Text) (m : Map A) → IsSorted m → IsSorted (erase k m)
  unfolding erase
  erase-IsSorted k [] s = tt
  erase-IsSorted k ((j, w) ∷ m) s = ground (arith, IsAbove-erase j k m s.0, erase-IsSorted k m s.1)

  pub from_entries-IsSorted : (r : List (Text × A)) → IsSorted (from_entries r)
  unfolding from_entries
  from_entries-IsSorted [] = tt
  from_entries-IsSorted ((k, v) ∷ r) =
      let m = from_entries r in
      let s = from_entries-IsSorted r in ground (arith, insert-IsSorted k v m s)

  -- A sorted map read back from its own entries.
  pub lookup-from_entries_sorted :
      (k : Text) (m : Map A) → IsSorted m → lookup k (from_entries m) ≡ lookup k m
  unfolding lookup
  lookup-from_entries_sorted k [] s = unfold from_entries in refl
  lookup-from_entries_sorted k ((j, v) ∷ m) s = ground (
    arith,
    lookup-from_entries_cons j k v m,
    lookup-from_entries_sorted k m s.1,
    lookup-above j m s.0,
    text_eq_iff j k,
  )

module _ {ℓ} {A : Type ℓ} where
  lookup-head : (k : Text) (v : A) (m : Map A) → lookup k ((k, v) ∷ m) ≡ some v
  unfolding lookup
  lookup-head k v m = ground (arith, text_eq_refl k)

  lookup-below :
      (j k : Text) (v : A) (m : Map A)
      → text_lt j k ≡ true
      → IsAbove k m
      → lookup j ((k, v) ∷ m) ≡ none
  lookup-below j k v m h a = lookup-above j ((k, v) ∷ m) (h, IsAbove-trans j k m h a)

  abbrev SameLookups : Map A → Map A → Type ℓ
  SameLookups m n = (k : Text) → lookup k m ≡ lookup k n

  tails_agree :
      (k : Text) (v w : A) (m n : Map A)
      → IsAbove k m
      → IsAbove k n
      → SameLookups ((k, v) ∷ m) ((k, w) ∷ n)
      → SameLookups m n
  unfolding lookup
  tails_agree k v w m n a b same j =
      ground (arith, same j, lookup-above k m a, lookup-above k n b, text_eq_iff k j)

  -- Two sorted maps with the same lookups are one map.
  pub map_ext : (m n : Map A) → IsSorted m → IsSorted n → SameLookups m n → m ≡ n
  map_ext [] [] s t same = refl
  map_ext [] ((k, w) ∷ n) s t same = unfold lookup in cc (same k, lookup-head k w n)
  map_ext ((j, v) ∷ m) [] s t same = unfold lookup in cc (same j, lookup-head j v m)
  map_ext ((j, v) ∷ m) ((k, w) ∷ n) s t same = elim (text_lt_total j k) [
    | inl e ↦
        subst
          (λ i.
            IsSorted ((i, w) ∷ n)
            → SameLookups ((j, v) ∷ m) ((i, w) ∷ n)
            → ◌≡◌ {A = Map A} ((j, v) ∷ m) ((i, w) ∷ n))
          e
          (λ t' same'. cc (
            same' j,
            lookup-head j v m,
            lookup-head j w n,
            map_ext m n s.1 t.1 (tails_agree j v w m n s.0 t'.0 same'),
          ))
          t same
    | inr (inl before) ↦ cc (same j, lookup-head j v m, lookup-below j k w n before t.0)
    | inr (inr after) ↦ cc (same k, lookup-head k w n, lookup-below k j v m after s.0)
  ]
