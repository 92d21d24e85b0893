-- ===== src/Json/Extra/Bag.antt =====
-- What `merge_extra` writes is what `field` and `collect_extra` read back.
use flint2_xray_web_console.Base.{
  ◌≡◌, refl, Bool, true, false, Option, none, some, List, [], ◌∷◌, arith, Text, text_eq,
  text_eq_iff, if◌then◌else◌, ◌||◌, ◌&&◌, or_else, not, ap, ◌∙◌,
}
use flint2_xray_web_console.Base.Bytes.{fold_eq, fold_eq_refl}
use flint2_xray_web_console.Json.{Json, from-to_members}
use flint2_xray_web_console.Json.Decode.{field}
use flint2_xray_web_console.Json.Map.{
  Map, lookup, insert, has, from_entries, lookup-insert, lookup-from_entries_cons,
}
use flint2_xray_web_console.Json.Map.Sorted.{
  IsAbove, IsSorted, insert-IsSorted, from_entries-IsSorted, map_ext, lookup-from_entries_sorted,
}
use flint2_xray_web_console.Json.Extra.{
  contains, drop_known, collect_extra, splice, Slots, present, merge_entries, merge_extra,
}

-- Some key of `known` is `k` up to case.
unfoldable pub folds_into : List Text → Text → Bool
folds_into [] k = false
folds_into (j ∷ r) k = fold_eq k j || folds_into r k

-- No key of the bag would be read as a known field.
abbrev pub IsClear : List Text → Map Json → Type 0
IsClear known [] = Unit
IsClear known ((k, v) ∷ m) = (folds_into known k ≡ false) × IsClear known m

abbrev pub IsBag : List Text → Map Json → Type 0
IsBag known extra = IsSorted extra × IsClear known extra

abbrev pub keys {ℓ} : {A : Type ℓ} → List (Text × A) → List Text
keys [] = []
keys ((k, _) ∷ r) = k ∷ keys r

unfoldable pub slot : Text → Slots → Option Json
unfolding text_eq
slot k [] = none
slot k ((j, o) ∷ r) = if text_eq j k then o else slot k r

unfoldable pub distinct : List Text → Bool
unfolding contains text_eq
distinct [] = true
distinct (k ∷ r) = not (contains r k) && distinct r

-- Among these keys the name is met by itself alone.
unfoldable pub unmistaken : Text → List Text → Bool
unmistaken name [] = true
unmistaken name (k ∷ r) = (if fold_eq k name then text_eq k name else true) && unmistaken name r

fold_eq_of_eq : (j k : Text) → text_eq j k ≡ true → (fold_eq j k ≡ true) × (fold_eq k j ≡ true)
fold_eq_of_eq j k h = rw ((text_eq_iff j k).0 h) (fold_eq_refl k, fold_eq_refl k)

slot-missing : (k : Text) (s : Slots) → contains (keys s) k ≡ false → slot k s ≡ none
unfolding contains slot
slot-missing k [] h = refl
slot-missing k ((j, o) ∷ r) h = ground (arith, slot-missing k r)

lookup-present :
    (k : Text) (s : Slots)
    → distinct (keys s) ≡ true
    → lookup k (from_entries (present s)) ≡ slot k s
unfolding distinct present slot
lookup-present k [] h = unfold from_entries lookup in refl
lookup-present k ((j, none) ∷ r) h =
    ground (arith, lookup-present k r, slot-missing j r, text_eq_iff j k)
lookup-present k ((j, some v) ∷ r) h = ground (
  arith,
  lookup-present k r,
  slot-missing j r,
  text_eq_iff j k,
  lookup-from_entries_cons j k v (present r),
)

-- One more key of the bag, unless the struct has it.
splice_key :
    (k j : Text) (v : Json) (m : Map Json)
    → lookup k (if has j m then m else insert j v m)
      ≡ or_else (lookup k m) (if text_eq j k then some v else none)
unfolding has
splice_key k j v m = ground (arith, lookup-insert j k v m, text_eq_iff j k)

lookup-splice :
    (k : Text) (extra m : Map Json)
    → lookup k (splice extra m) ≡ or_else (lookup k m) (lookup k extra)
unfolding splice
lookup-splice k [] m = ground arith
lookup-splice k ((j, v) ∷ extra) m =
    ground (arith, lookup-splice k extra (if has j m then m else insert j v m), splice_key k j v m)

splice-IsSorted : (extra m : Map Json) → IsSorted m → IsSorted (splice extra m)
unfolding splice
splice-IsSorted [] m s = s
splice-IsSorted ((j, v) ∷ extra) m s =
    splice-IsSorted extra _ (ground (arith, insert-IsSorted j v m s))

spliced-IsSorted :
    (extra : Map Json) (s : Slots) → IsSorted (splice extra (from_entries (present s)))
spliced-IsSorted extra s = splice-IsSorted extra _ (from_entries-IsSorted (present s))

pub lookup-merge_entries :
    (k : Text) (extra : Map Json) (s : Slots)
    → distinct (keys s) ≡ true
    → lookup k (from_entries (merge_entries extra s)) ≡ or_else (slot k s) (lookup k extra)
unfolding merge_entries splice
lookup-merge_entries k [] s h = ground (arith, lookup-present k s h)
lookup-merge_entries k ((j, v) ∷ extra) s h =
    lookup-from_entries_sorted k _ (spliced-IsSorted ((j, v) ∷ extra) s)
    ∙ lookup-splice k ((j, v) ∷ extra) (from_entries (present s))
    ∙ ap (λ o. or_else o (lookup k ((j, v) ∷ extra))) (lookup-present k s h)

lookup-drop_known :
    (known : List Text) (k : Text) (m : Map Json)
    → lookup k (drop_known known m) ≡ (if contains known k then none else lookup k m)
unfolding drop_known lookup
lookup-drop_known known k [] = ground arith
lookup-drop_known known k ((j, v) ∷ m) =
    ground (arith, lookup-drop_known known k m, text_eq_iff j k)

IsAbove-drop_known :
    (known : List Text) (i : Text) (m : Map Json) → IsAbove i m → IsAbove i (drop_known known m)
unfolding drop_known
IsAbove-drop_known known i [] a = tt
IsAbove-drop_known known i ((j, v) ∷ m) a = ground (arith, IsAbove-drop_known known i m a.1)

drop_known-IsSorted :
    (known : List Text) (m : Map Json) → IsSorted m → IsSorted (drop_known known m)
unfolding drop_known
drop_known-IsSorted known [] s = tt
drop_known-IsSorted known ((j, v) ∷ m) s =
    ground (arith, IsAbove-drop_known known j m s.0, drop_known-IsSorted known m s.1)

known-folds_into :
    (known : List Text) (k : Text) → contains known k ≡ true → folds_into known k ≡ true
unfolding contains folds_into
known-folds_into [] k h = h
known-folds_into (j ∷ r) k h = ground (arith, known-folds_into r k, fold_eq_of_eq j k)

-- A bag holds no known key.
lookup-clear :
    (known : List Text) (k : Text) (m : Map Json)
    → IsClear known m
    → contains known k ≡ true
    → lookup k m ≡ none
unfolding lookup
lookup-clear known k [] c h = refl
lookup-clear known k ((j, v) ∷ m) c h =
    ground (arith, lookup-clear known k m c.1 h, known-folds_into known k h, text_eq_iff j k)

lookup-collected :
    (extra : Map Json) (s : Slots)
    → distinct (keys s) ≡ true
    → IsClear (keys s) extra
    → (k : Text)
    → lookup k (drop_known (keys s) (from_entries (merge_entries extra s))) ≡ lookup k extra
lookup-collected extra s h clear k = ground (
  arith,
  lookup-drop_known (keys s) k (from_entries (merge_entries extra s)),
  lookup-merge_entries k extra s h,
  slot-missing k s,
  lookup-clear (keys s) k extra clear,
)

-- What the struct did not model comes back as it went in.
pub collect-merge_extra :
    (extra : Map Json) (s : Slots)
    → distinct (keys s) ≡ true
    → IsBag (keys s) extra
    → collect_extra (merge_extra extra s) (keys s) ≡ extra
unfolding collect_extra merge_extra
collect-merge_extra extra s h (sorted, clear) = rw from-to_members (
    map_ext _ extra (drop_known-IsSorted (keys s) _ (from_entries-IsSorted (merge_entries extra s)))
      sorted (lookup-collected extra s h clear))

field-lookup :
    (name : Text) (l : List (Text × Json))
    → unmistaken name (keys l) ≡ true
    → field name l ≡ lookup name (from_entries l)
unfolding field unmistaken
field-lookup name [] h = unfold lookup from_entries in refl
field-lookup name ((k, v) ∷ r) h =
    ground (arith, field-lookup name r, lookup-from_entries_cons k name v r, fold_eq_of_eq k name)

unmistaken-insert :
    (name k : Text) (v : Json) (m : Map Json)
    → unmistaken name (k ∷ []) ≡ true
    → unmistaken name (keys m) ≡ true
    → unmistaken name (keys (insert k v m)) ≡ true
unfolding unmistaken insert
unmistaken-insert name k v [] h a = h
unmistaken-insert name k v ((j, w) ∷ m) h a = ground (arith, unmistaken-insert name k v m h)

unmistaken-from_entries :
    (name : Text) (l : List (Text × Json))
    → unmistaken name (keys l) ≡ true
    → unmistaken name (keys (from_entries l)) ≡ true
unfolding from_entries unmistaken
unmistaken-from_entries name [] h = refl
unmistaken-from_entries name ((k, v) ∷ r) h =
    ground (arith, unmistaken-from_entries name r, unmistaken-insert name k v (from_entries r))

unmistaken-splice :
    (name : Text) (extra m : Map Json)
    → unmistaken name (keys extra) ≡ true
    → unmistaken name (keys m) ≡ true
    → unmistaken name (keys (splice extra m)) ≡ true
unfolding splice unmistaken
unmistaken-splice name [] m h a = a
unmistaken-splice name ((k, v) ∷ extra) m h a =
    unmistaken-splice name extra _ (ground arith) (ground (arith, unmistaken-insert name k v m))

unmistaken-present :
    (name : Text) (s : Slots)
    → unmistaken name (keys s) ≡ true
    → unmistaken name (keys (present s)) ≡ true
unfolding present unmistaken
unmistaken-present name [] h = h
unmistaken-present name ((k, none) ∷ r) h = ground (arith, unmistaken-present name r)
unmistaken-present name ((k, some v) ∷ r) h = ground (arith, unmistaken-present name r)

folds_into-clear :
    (known : List Text) (name k : Text)
    → contains known name ≡ true
    → folds_into known k ≡ false
    → fold_eq k name ≡ false
unfolding contains folds_into
folds_into-clear [] name k c h = cc
folds_into-clear (j ∷ r) name k c h = ground (arith, folds_into-clear r name k, text_eq_iff j name)

unmistaken-clear :
    (known : List Text) (name : Text) (m : Map Json)
    → contains known name ≡ true
    → IsClear known m
    → unmistaken name (keys m) ≡ true
unfolding unmistaken
unmistaken-clear known name [] c h = refl
unmistaken-clear known name ((k, v) ∷ m) c h =
    ground (arith, folds_into-clear known name k c h.0, unmistaken-clear known name m c h.1)

lookup-clear_name :
    (extra : Map Json) (s : Slots) (name : Text)
    → contains (keys s) name ≡ true
    → IsClear (keys s) extra
    → or_else (slot name s) (lookup name extra) ≡ slot name s
lookup-clear_name extra s name c clear = ground (arith, lookup-clear (keys s) name extra clear c)

-- Each known field comes back as it was written, whatever the bag holds.
pub field-merge_entries :
    (name : Text) (extra : Map Json) (s : Slots)
    → distinct (keys s) ≡ true
    → contains (keys s) name ≡ true
    → unmistaken name (keys s) ≡ true
    → IsBag (keys s) extra
    → field name (merge_entries extra s) ≡ slot name s
field-merge_entries name extra s h c u (sorted, clear) =
    field-lookup name (merge_entries extra s) (clean extra clear)
    ∙ lookup-merge_entries name extra s h
    ∙ lookup-clear_name extra s name c clear
  where
    clean : (e : Map Json) → IsClear (keys s) e → unmistaken name (keys (merge_entries e s)) ≡ true
    clean [] a = unfold merge_entries in unmistaken-present name s u
    clean ((k, v) ∷ e) a =
        unfold merge_entries in
        unmistaken-splice name ((k, v) ∷ e) (from_entries (present s))
          (unmistaken-clear (keys s) name ((k, v) ∷ e) c a)
          (unmistaken-from_entries name (present s) (unmistaken-present name s u))
