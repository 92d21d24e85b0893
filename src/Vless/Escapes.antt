-- ===== src/Vless/Escapes.antt =====
-- What a receiver reads from an escaped text.
use flint2_xray_web_console.Base.{
  ◌≡◌, ℕ, ◌+◌, ◌-◌, ◌*◌, ◌<◌, Bool, true, false, Option, none, some, [], ◌∷◌, ◌++◌, Text, All,
  if◌then◌else◌, leb, ◌==◌, ◌||◌, ◌&&◌, refl, arith, ◌/◌, Bool-cases, inl, ◌%◌, inr, ap, sym,
}
use flint2_xray_web_console.Vless.{
  hex, percent, path_escape, query_escape, escape_path_byte, escape_query_byte, is_unreserved,
  is_path_byte,
}

abbrev pub is_hex_digit : ℕ → Bool
is_hex_digit c = (leb 48 c && leb c 57) || (leb 65 c && leb c 70) || (leb 97 c && leb c 102)

abbrev pub hex_value : ℕ → ℕ
hex_value c = if leb c 57 then c - 48 else if leb c 70 then c - 55 else c - 87

abbrev pub onto : ℕ → Option Text → Option Text
onto c none = none
onto c (some s) = some (c ∷ s)

-- where a reader of escapes stands
pub data Place : Type 0 where
  plain : Place
  after_percent : Place
  after_digit : ℕ → Place

-- The text that an escaped text stands for, from a place in it; `plus` tells whether a plus sign
-- stands for a space.
unfoldable pub unescape : Bool → Place → Text → Option Text
unescape plus plain [] = some []
unescape plus after_percent [] = none
unescape plus (after_digit h) [] = none
unescape plus plain (c ∷ s) =
    let rest = unescape plus (if c == 37 then after_percent else plain) s in
    if c == 37 then rest else onto (if plus && c == 43 then 32 else c) rest
unescape plus after_percent (c ∷ s) =
    let rest = unescape plus (after_digit (hex_value c)) s in if is_hex_digit c then rest else none
unescape plus (after_digit h) (c ∷ s) =
    let rest = unescape plus plain s in
    if is_hex_digit c then onto (h * 16 + hex_value c) rest else none

abbrev pub IsBytes : Text → Type 0
IsBytes s = All (λ c. c < 256) s

hex_value-hex : (n : ℕ) → n < 16 → (hex_value (hex n) ≡ n) × (is_hex_digit (hex n) ≡ true)
hex_value-hex n h = ground arith

unescape-percent :
    (plus : Bool) (c : ℕ) (t : Text)
    → c < 256
    → unescape plus plain (percent c ++ t) ≡ onto c (unescape plus plain t)
unfolding unescape
unescape-percent plus c t h =
    let (high, first) = hex_value-hex (c / 16) (omega (arith, h)) in
    let (low, second) = hex_value-hex (c % 16) (omega (arith, h)) in
    let whole : (c / 16) * 16 + c % 16 ≡ c = omega (arith, h) in
    rw (first, high, second, low, whole) refl

-- a byte that stands for itself
unescape_kept :
    (plus : Bool) (c : ℕ) (t : Text)
    → (c == 37) ≡ false
    → (plus && c == 43) ≡ false
    → unescape plus plain (c ∷ t) ≡ onto c (unescape plus plain t)
unfolding unescape
unescape_kept plus c t h k = rw (h, k) refl

path_byte :
    (c : ℕ) (t : Text)
    → c < 256
    → unescape false plain (escape_path_byte c ++ t) ≡ onto c (unescape false plain t)
path_byte c t h = elim (Bool-cases (is_path_byte c)) [
  | inl kept ↦ rw kept (unescape_kept false c t (ground arith) refl)
  | inr escaped ↦ rw escaped (unescape-percent false c t h)
]

space_byte : (t : Text) → unescape true plain (43 ∷ t) ≡ onto 32 (unescape true plain t)
unfolding unescape
space_byte t = refl

query_byte :
    (c : ℕ) (t : Text)
    → c < 256
    → unescape true plain (escape_query_byte c ++ t) ≡ onto c (unescape true plain t)
query_byte c t h = elim (Bool-cases (c == 32)) [
  | inl blank ↦
      let at : c ≡ 32 = ground arith in
      rw (blank, space_byte t) (ap (λ b. onto b (unescape true plain t)) (sym at))
  | inr visible ↦ elim (Bool-cases (is_unreserved c)) [
    | inl kept ↦ rw (visible, kept) (unescape_kept true c t (ground arith) (ground arith))
    | inr escaped ↦ rw (visible, escaped) (unescape-percent true c t h)
  ]
]

pub unescape-path_escape : (s : Text) → IsBytes s → unescape false plain (path_escape s) ≡ some s
unfolding path_escape
unescape-path_escape [] h = unfold unescape in refl
unescape-path_escape (c ∷ s) h =
    rw (path_byte c (path_escape s) h.0, unescape-path_escape s h.1) refl

pub unescape-query_escape : (s : Text) → IsBytes s → unescape true plain (query_escape s) ≡ some s
unfolding query_escape
unescape-query_escape [] h = unfold unescape in refl
unescape-query_escape (c ∷ s) h =
    rw (query_byte c (query_escape s) h.0, unescape-query_escape s h.1) refl
