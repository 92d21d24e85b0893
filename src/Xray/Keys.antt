-- ===== src/Xray/Keys.antt =====
-- internal/xray/keys.go: the key pairs that `xray x25519` makes, and the parse of what it prints. A
-- timeout of the command is one of the ways in which it may end.
pub mod Printed
use flint2_xray_web_console.Base.{
  ℕ, Bool, true, false, Option, none, some, List, [], ◌∷◌, Text, codes, fail, ok, err,
  if◌then◌else◌, is_nil, leb, ◌==◌, ◌||◌, or_else,
}
use flint2_xray_web_console.Base.Bytes.{lower}
use flint2_xray_web_console.Base.Errors.{Result}
use flint2_xray_web_console.Exec.{Exec, pure, raise, ◌>>=◌, ◌>>◌, lift}
use flint2_xray_web_console.Os.{Env, World, Output, exit_ok, run}

pub record Keypair : Type 0 where
  pub private : Text
  pub public : Text

-- `\s` of Go's regular expressions: tab, newline, form feed, carriage return, space
abbrev pub is_blank : ℕ → Bool
is_blank c = c == 9 || c == 10 || c == 12 || c == 13 || c == 32

-- `\s*`
unfoldable pub blanks : Text → Text
blanks [] = []
blanks (c ∷ s) = let rest = blanks s in if is_blank c then rest else c ∷ s

-- a literal, up to case: what follows it
unfoldable pub literal : Text → Text → Option Text
unfolding lower
literal [] s = some s
literal (b ∷ p) [] = none
literal (b ∷ p) (c ∷ s) = let rest = literal p s in if lower b == lower c then rest else none

-- `\S+`, as a group
unfoldable pub word : Text → Text
word [] = []
word (c ∷ s) = let rest = word s in if is_blank c then [] else c ∷ rest

-- a literal and the blanks after it
abbrev pub token : Text → Text → Option Text
token p s = elim (literal p s) [ none ↦ none | some rest ↦ some (blanks rest) ]

-- then, if there was a match
abbrev pub then_token : Text → Option Text → Option Text
then_token p none = none
then_token p (some s) = token p s

-- `\s*:\s*(\S+)`, after a label and its blanks
unfoldable pub value : Option Text → Option Text
unfolding literal blanks word
value o = elim (then_token (codes ":") o) [
  | none ↦ none
  | some s ↦ let w = word s in if is_nil w then none else some w
]

-- one match of `privKeyRe` from the start of a line
unfoldable pub match_private : Text → Option Text
unfolding value
match_private s = value (then_token (codes "key") (token (codes "Private") (blanks s)))

-- one match of `pubKeyRe` from the start of a line: the first alternative, or the second
unfoldable pub match_public : Text → Option Text
unfolding value
match_public s = or_else (value (then_token (codes "key") (token (codes "Public") (blanks s)))) (
    value (
      then_token (codes ")") (
        then_token (codes "PublicKey")
          (then_token (codes "(") (token (codes "Password") (blanks s))))))

-- the leftmost match; `^` is the start of any line
unfoldable pub search : (Text → Option Text) → Bool → Text → Option Text
search m starts [] = none
search m starts (c ∷ s) =
    let rest = search m (c == 10) s in if starts then or_else (m (c ∷ s)) rest else rest

-- `extractKey(out, "Private key")`
unfoldable pub extract_private : Text → Option Text
unfolding search match_private
extract_private out = search match_private true out

-- `extractKey(out, "Public key")`
unfoldable pub extract_public : Text → Option Text
unfolding search match_public
extract_public out = search match_public true out

-- the keys in what `xray x25519` prints
unfoldable pub keypair_of : Text → Result Keypair
unfolding extract_private extract_public
keypair_of out = elim (extract_private out) [
  | none ↦ err (fail "xray x25519: could not parse output")
  | some priv ↦ elim (extract_public out) [
    | none ↦ err (fail "xray x25519: could not parse output")
    | some key ↦ ok (record { private = priv; public = key })
  ]
]

unfoldable pub public_of : Text → Result Text
unfolding extract_public
public_of out = elim (extract_public out) [
  | none ↦ err (fail "xray x25519 -i: could not parse output")
  | some key ↦ ok key
]

module _ (env : Env) (xray_bin : Text) where
  -- `KeyTool.exec`: stdout if it is not empty, else stderr
  unfoldable pub key_exec : List Text → Exec World Text
  unfolding run
  key_exec extra = do
    o ← run env (xray_bin ∷ codes "x25519" ∷ extra)
    elim o.exit [
      | exit_ok ↦ pure (if is_nil o.stdout then o.stderr else o.stdout)
      | _ ↦ raise (fail "xray x25519")
    ]

  unfoldable pub generate : Exec World Keypair
  unfolding key_exec keypair_of
  generate = key_exec [] >>= λ out. lift (keypair_of out)

  unfoldable pub derive_public : Text → Exec World Text
  unfolding key_exec public_of
  derive_public priv =
      if is_nil priv
      then raise (fail "private key is empty")
      else key_exec (codes "-i" ∷ priv ∷ []) >>= λ out. lift (public_of out)
