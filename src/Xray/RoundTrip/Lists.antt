-- ===== src/Xray/RoundTrip/Lists.antt =====
-- Optional numbers, pointers and slices come back from their own JSON.
use flint2_xray_web_console.Base.{
  ◌≡◌, refl, true, Option, none, some, List, [], ◌∷◌, ok, map, All, Result,
}
use flint2_xray_web_console.Base.Int.{ℤ, in_int64}
use flint2_xray_web_console.Json.{Json, arr, to_items}
use flint2_xray_web_console.Json.Decode.{
  read_field, decode_pointer, decode_int, decode_list, omit_nil, omit_list,
}

-- an optional number that fits an `int`
abbrev pub FitsInt : Option ℤ → Type 0
FitsInt none = Unit
FitsInt (some z) = in_int64 z ≡ true

pub decode-omit_nil_int :
    (o : Option ℤ)
    → FitsInt o
    → read_field none (decode_pointer decode_int) (omit_nil Json.int o) ≡ ok o
decode-omit_nil_int none h = refl
decode-omit_nil_int (some z) h = rw h

module _ {A : Type 0} (enc : A → Json) (dec : Json → Result A) where
  abbrev pub ComesBack : A → Type 0
  ComesBack x = dec (enc x) ≡ ok x

  pub decode-encode_list :
      (l : List A) → All ComesBack l → decode_list dec (arr (to_items (map enc l))) ≡ ok l
  unfolding decode_list
  decode-encode_list [] h = refl
  decode-encode_list (x ∷ l) h = rw (h.0, decode-encode_list l h.1)

  pub decode-omit_list :
      (l : List A) → All ComesBack l → read_field [] (decode_list dec) (omit_list enc l) ≡ ok l
  decode-omit_list [] h = refl
  decode-omit_list (x ∷ l) h = decode-encode_list (x ∷ l) h
