-- ===== src/Base/HostPort.antt =====
-- Go's net.SplitHostPort; `none` is an error.
use Prim.Native.Nat.{ℕ}
use mathlib.Core.Bool.{Bool, false, ◌||◌, not}
use mathlib.Core.Option.{Option, none, some}
use mathlib.Core.List.{[], ◌∷◌}
use flint2_xray_web_console.Base.Tests.{◌==◌, if◌then◌else◌}
use flint2_xray_web_console.Base.Bytes.{Text}

unfoldable pub contains_byte : ℕ → Text → Bool
contains_byte b [] = false
contains_byte b (c ∷ s) = c == b || contains_byte b s

-- the text before the first such byte, and after it
unfoldable pub cut_first : ℕ → Text → Option (Text × Text)
cut_first b [] = none
cut_first b (c ∷ s) =
    let rest = cut_first b s in
    if c == b then some ([], s) else elim rest [ none ↦ none | some (p, t) ↦ some (c ∷ p, t) ]

-- the same at the last one
unfoldable pub cut_last : ℕ → Text → Option (Text × Text)
cut_last b [] = none
cut_last b (c ∷ s) = elim (cut_last b s) [
  | some (p, t) ↦ some (c ∷ p, t)
  | none ↦ if c == b then some ([], s) else none
]

-- after a `[`: the host up to `]`, then one colon and the port
unfoldable pub split_bracketed : Text → Option (Text × Text)
unfolding cut_first contains_byte
split_bracketed s = elim (cut_first 93 s) [
  | none ↦ none
  | some (host, []) ↦ none
  | some (host, c ∷ port) ↦
      if not (c == 58) || contains_byte 58 port
      then none
      else if contains_byte 91 s || contains_byte 93 port
      then none
      else some (host, port)
]

-- without brackets: one colon
unfoldable pub split_plain : Text → Option (Text × Text)
unfolding cut_last contains_byte
split_plain s = elim (cut_last 58 s) [
  | none ↦ none
  | some (host, port) ↦
      if contains_byte 58 host || contains_byte 91 s || contains_byte 93 s
      then none
      else some (host, port)
]

unfoldable pub split_host_port : Text → Option (Text × Text)
unfolding split_bracketed split_plain
split_host_port [] = none
split_host_port (c ∷ s) = if c == 91 then split_bracketed s else split_plain (c ∷ s)
