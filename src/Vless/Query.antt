-- ===== src/Vless/Query.antt =====
-- What a receiver reads from the query of a connection URL.
use flint2_xray_web_console.Base.{
  ◌≡◌, ℕ, true, false, Option, none, some, List, [], ◌∷◌, ◌++◌, Text, All, if◌then◌else◌, ◌==◌,
  is_nil, refl, arith, ◌<◌,
}
use flint2_xray_web_console.Json.Map.{Map}
use flint2_xray_web_console.Vless.{query_escape, escape_query_byte, encode, pair}
use flint2_xray_web_console.Vless.Escapes.{unescape, plain, IsBytes, unescape-query_escape}

-- the parts between separators
unfoldable pub split_on : ℕ → Text → List Text
split_on b [] = [] ∷ []
split_on b (c ∷ s) =
    let rest = split_on b s in
    if c == b then [] ∷ rest else elim rest [ [] ↦ (c ∷ []) ∷ [] | p ∷ ps ↦ (c ∷ p) ∷ ps ]

-- the text before a separator, and after it
unfoldable pub cut : ℕ → Text → Text × Text
cut b [] = ([], [])
cut b (c ∷ s) = let rest = cut b s in if c == b then ([], s) else (c ∷ rest.0, rest.1)

abbrev pub read_pair : Text → Option (Text × Text)
read_pair s = elim (unescape true plain (cut 61 s).0) [
  | none ↦ none
  | some k ↦ elim (unescape true plain (cut 61 s).1) [ none ↦ none | some v ↦ some (k, v) ]
]

abbrev pub read_pairs : List Text → Option (Map Text)
read_pairs [] = some []
read_pairs (s ∷ l) = elim (read_pair s) [
  | none ↦ none
  | some e ↦ elim (read_pairs l) [ none ↦ none | some m ↦ some (e ∷ m) ]
]

abbrev pub read_query : Text → Option (Map Text)
read_query s = read_pairs (split_on 38 s)

abbrev pub Lacks : ℕ → Text → Type 0
Lacks b s = All (λ c. (c == b) ≡ false) s

pub Lacks-append : (b : ℕ) (s t : Text) → Lacks b s → Lacks b t → Lacks b (s ++ t)
Lacks-append b [] t h k = k
Lacks-append b (c ∷ s) t h k = (h.0, Lacks-append b s t h.1 k)

escape-Lacks : (c : ℕ) → c < 256 → Lacks 38 (escape_query_byte c) × Lacks 61 (escape_query_byte c)
escape-Lacks c h = ground arith

query_escape-Lacks : (s : Text) → IsBytes s → Lacks 38 (query_escape s) × Lacks 61 (query_escape s)
unfolding query_escape
query_escape-Lacks [] h = (tt, tt)
query_escape-Lacks (c ∷ s) h =
    let (amp, eq) = escape-Lacks c h.0 in
    let (amps, eqs) = query_escape-Lacks s h.1 in
    (
      Lacks-append 38 (escape_query_byte c) (query_escape s) amp amps,
      Lacks-append 61 (escape_query_byte c) (query_escape s) eq eqs,
    )

split_on-part : (b : ℕ) (p s : Text) → Lacks b p → split_on b (p ++ (b ∷ s)) ≡ p ∷ split_on b s
unfolding split_on
split_on-part b [] s h = ground arith
split_on-part b (c ∷ p) s h = rw (h.0, split_on-part b p s h.1) refl

split_on-last : (b : ℕ) (p : Text) → Lacks b p → split_on b p ≡ p ∷ []
unfolding split_on
split_on-last b [] h = refl
split_on-last b (c ∷ p) h = rw (h.0, split_on-last b p h.1) refl

pub cut-part : (b : ℕ) (p s : Text) → Lacks b p → cut b (p ++ (b ∷ s)) ≡ (p, s)
unfolding cut
cut-part b [] s h = ground arith
cut-part b (c ∷ p) s h = rw (h.0, cut-part b p s h.1) refl

abbrev pub AreBytes : Map Text → Type 0
AreBytes m = All (λ (e : Text × Text). IsBytes e.0 × IsBytes e.1) m

read_cut :
    (s a b k v : Text)
    → cut 61 s ≡ (a, b)
    → unescape true plain a ≡ some k
    → unescape true plain b ≡ some v
    → read_pair s ≡ some (k, v)
read_cut s a b k v e ha hb = rw (read_pair, e, ha, e, hb) refl

read_pair-pair : (k v : Text) → IsBytes k → IsBytes v → read_pair (pair k v) ≡ some (k, v)
read_pair-pair k v hk hv =
    read_cut (pair k v) (query_escape k) (query_escape v) k v
      (cut-part 61 (query_escape k) (query_escape v) (query_escape-Lacks k hk).1)
      (unescape-query_escape k hk) (unescape-query_escape v hv)

read_more :
    (s : Text) (l : List Text) (e : Text × Text) (m : Map Text)
    → read_pair s ≡ some e
    → read_pairs l ≡ some m
    → read_pairs (s ∷ l) ≡ some (e ∷ m)
read_more s l e m h k = rw (read_pairs, h, k) refl

pair-Lacks : (k v : Text) → IsBytes k → IsBytes v → Lacks 38 (pair k v)
pair-Lacks k v hk hv =
    Lacks-append 38 (query_escape k) (61 ∷ query_escape v) (query_escape-Lacks k hk).0
      (refl, (query_escape-Lacks v hv).0)

pub read_query-encode :
    (m : Map Text) → is_nil m ≡ false → AreBytes m → read_query (encode m) ≡ some m
unfolding encode
read_query-encode [] e h = ground arith
read_query-encode ((k, v) ∷ []) e h =
    rw (split_on-last 38 (pair k v) (pair-Lacks k v h.0.0 h.0.1))
      (read_more (pair k v) [] (k, v) [] (read_pair-pair k v h.0.0 h.0.1) refl)
read_query-encode ((k, v) ∷ d ∷ m) e h =
    rw (split_on-part 38 (pair k v) (encode (d ∷ m)) (pair-Lacks k v h.0.0 h.0.1)) (
      read_more (pair k v) (split_on 38 (encode (d ∷ m))) (k, v) (d ∷ m)
        (read_pair-pair k v h.0.0 h.0.1) (read_query-encode (d ∷ m) refl h.1))
