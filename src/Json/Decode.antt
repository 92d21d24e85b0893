-- ===== src/Json/Decode.antt =====
-- What `json.Unmarshal` does with each kind of target, and `omitempty` on the way back.
use flint2_xray_web_console.Base.{
  ◌≡◌, refl, Bool, false, Option, none, some, List, [], ◌∷◌, map, Text, Result, ok, err, fail,
  if◌then◌else◌, or_else,
}
use flint2_xray_web_console.Base.Bytes.{fold_eq}
use flint2_xray_web_console.Base.Int.{ℤ, in_int64}
use flint2_xray_web_console.Base.Errors.{◌>>=◌}
use flint2_xray_web_console.Json.{
  Json, null, bool, int, str, arr, from_items, to_items, obj, from_members,
}
use flint2_xray_web_console.Json.Map.{Map, from_entries}

-- The member that sets the struct field of this name: keys match up to case, and the last
-- of several stays.
unfoldable pub field : Text → List (Text × Json) → Option Json
field name [] = none
field name ((k, v) ∷ r) = or_else (field name r) (if fold_eq k name then some v else none)

-- a `string`; `null` leaves the zero value
abbrev pub decode_text : Json → Result Text
decode_text null = ok []
decode_text (str s) = ok s
decode_text _ = err (fail "json: cannot unmarshal into string")

abbrev pub decode_bool : Json → Result Bool
decode_bool null = ok false
decode_bool (bool b) = ok b
decode_bool _ = err (fail "json: cannot unmarshal into bool")

-- an `int`
abbrev pub decode_int : Json → Result ℤ
decode_int null = ok (ℤ.pos 0)
decode_int (int z) = if in_int64 z then ok z else err (fail "json: number overflows int")
decode_int _ = err (fail "json: cannot unmarshal into int")

-- a pointer `*T`: `null` is the nil pointer
abbrev pub decode_pointer : {A : Type 0} → (Json → Result A) → Json → Result (Option A)
decode_pointer dec null = ok none
decode_pointer dec v = dec v >>= λ a. ok (some a)

decode_each : {A : Type 0} → (Json → Result A) → List Json → Result (List A)
decode_each dec [] = ok []
decode_each dec (v ∷ r) = do a ← dec v; rest ← decode_each dec r; ok (a ∷ rest)

-- a slice `[]T`: `null` is the nil slice
unfoldable pub decode_list : {A : Type 0} → (Json → Result A) → Json → Result (List A)
unfolding decode_each
decode_list dec null = ok []
decode_list dec (arr xs) = decode_each dec (from_items xs)
decode_list dec _ = err (fail "json: cannot unmarshal into slice")

-- `json.RawMessage`: whatever stands there, `null` too
abbrev pub decode_raw : Json → Result Json
decode_raw v = ok v

-- a struct field: its zero value where no member sets it
abbrev pub read_field : {A : Type 0} → A → (Json → Result A) → Option Json → Result A
read_field zero_value dec none = ok zero_value
read_field zero_value dec (some v) = dec v

-- an optional field: a pointer, or a raw message, whose zero value is nil
abbrev pub read_raw : Option Json → Result (Option Json)
read_raw o = ok o

-- `omitempty`
abbrev pub omit_text : Text → Option Json
omit_text [] = none
omit_text (c ∷ s) = some (str (c ∷ s))

abbrev pub omit_list : {A : Type 0} → (A → Json) → List A → Option Json
omit_list enc [] = none
omit_list enc (x ∷ xs) = some (arr (to_items (map enc (x ∷ xs))))

abbrev pub omit_nil : {A : Type 0} → (A → Json) → Option A → Option Json
omit_nil enc none = none
omit_nil enc (some a) = some (enc a)

pub decode-omit_text : (s : Text) → read_field [] decode_text (omit_text s) ≡ ok s
decode-omit_text [] = refl
decode-omit_text (c ∷ s) = refl

-- a struct from a value that is neither an object nor `null`
abbrev pub not_object {ℓ} : {A : Type ℓ} → Result A
not_object = err (fail "json: cannot unmarshal into struct")

abbrev pub raw_value : Json → Json
raw_value v = v

-- `json.Unmarshal` into a map: `null` makes it the nil map, from which one may read.
unfoldable pub decode_map : Json → Result (Option (Map Json))
decode_map null = ok none
decode_map (obj ms) = ok (some (from_entries (from_members ms)))
decode_map _ = err (fail "json: cannot unmarshal into map")
