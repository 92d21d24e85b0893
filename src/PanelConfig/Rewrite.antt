-- ===== src/PanelConfig/Rewrite.antt =====
-- `WriteStatsAPI` of internal/config/config.go: the rewrite of the `stats_api` line of panel.yaml.
use flint2_xray_web_console.Base.{
  ℕ, ◌+◌, ◌/◌, ◌%◌, Bool, false, Option, none, some, List, [], ◌∷◌, ◌++◌, map, Text, codes, fail,
  if◌then◌else◌, is_nil, is_some, ltb, ◌==◌, ◌||◌,
}
use flint2_xray_web_console.Exec.{Exec, pure, raise, wrapping, ◌>>=◌, ◌>>◌}
use flint2_xray_web_console.Json.{Json}
use flint2_xray_web_console.Logs.Lines.{raw_lines, newline}
use flint2_xray_web_console.Os.{
  Env, World, Content, json, raw, named, bak, read_file, write_file, rename, contents, missing,
  unreadable,
}

abbrev hex : ℕ → ℕ
hex n = if ltb n 10 then 48 + n else 87 + n

-- a byte in the quotes of `%q`
unfoldable pub quote_byte : ℕ → Text
quote_byte c =
    if c == 34 || c == 92
    then 92 ∷ c ∷ []
    else if c == 7
    then codes "\\a"
    else if c == 8
    then codes "\\b"
    else if c == 9
    then codes "\\t"
    else if c == 10
    then codes "\\n"
    else if c == 11
    then codes "\\v"
    else if c == 12
    then codes "\\f"
    else if c == 13
    then codes "\\r"
    else if ltb c 32 || c == 127
    then 92 ∷ 120 ∷ hex (c / 16) ∷ hex (c % 16) ∷ []
    else c ∷ []

unfoldable pub quote_bytes : Text → Text
unfolding quote_byte
quote_bytes [] = []
quote_bytes (c ∷ s) = quote_byte c ++ quote_bytes s

-- `%q`
abbrev pub quoted : Text → Text
quoted s = 34 ∷ (quote_bytes s ++ (34 ∷ []))

abbrev is_gap : ℕ → Bool
is_gap c = c == 32 || c == 9

-- `[ \t]*` at the front: what it matches, and what follows
unfoldable pub gap : Text → Text × Text
gap [] = ([], [])
gap (c ∷ s) = let rest = gap s in if is_gap c then (c ∷ rest.0, rest.1) else ([], c ∷ s)

-- a literal at the front: what follows it
unfoldable pub after_literal : Text → Text → Option Text
after_literal [] s = some s
after_literal (b ∷ p) [] = none
after_literal (b ∷ p) (c ∷ s) = let rest = after_literal p s in if b == c then rest else none

-- what group 1 of `statsAPIRe` matches in a line
unfoldable pub stats_key : Text → Option Text
unfolding gap after_literal
stats_key line =
    let front = gap line in
    elim (after_literal (codes "stats_api") front.1) [
      | none ↦ none
      | some s ↦
          let middle = gap s in
          elim (after_literal (codes ":") middle.1) [
            | none ↦ none
            | some _ ↦ some (front.0 ++ (codes "stats_api" ++ (middle.0 ++ codes ":")))
          ]
    ]

-- a line after the replacement, for a value without `$`, which would refer to a group
unfoldable pub patch_line : Text → Text → Text
unfolding stats_key quote_bytes
patch_line value line = elim (stats_key line) [
  | none ↦ line
  | some key ↦ key ++ (32 ∷ quoted value)
]

abbrev pub any_key : List Text → Bool
any_key [] = false
any_key (l ∷ ls) = is_some (stats_key l) || any_key ls

abbrev pub unlines : List Text → Text → Text
unlines [] rest = rest
unlines (l ∷ ls) rest = l ++ (newline ∷ unlines ls rest)

-- the new text: its lines replaced, or one line more
unfoldable pub patch_text : Text → Text → Text
unfolding raw_lines patch_line
patch_text value s =
    let (ls, rest) = raw_lines s in
    if any_key ls || is_some (stats_key rest)
    then unlines (map (patch_line value) ls) (patch_line value rest)
    else s
      ++ ((if is_nil rest then [] else newline ∷ [])
          ++ (codes "stats_api: " ++ (quoted value ++ (newline ∷ []))))

module _ (env : Env) (render : Json → Text) where
  -- the bytes of a file; those of a JSON document are `render`'s
  abbrev bytes : Content → Text
  bytes (raw s) = s
  bytes (json j) = render j

  unfoldable pub read_bytes : Text → Exec World Content
  unfolding read_file
  read_bytes path = do
    found ← read_file env (named path)
    elim found [
      | contents c ↦ pure c
      | missing ↦ raise (fail "read")
      | unreadable ↦ raise (fail "read")
    ]

  unfoldable pub write_stats_api : Text → Text → Exec World (Unit {0})
  unfolding read_bytes write_file rename patch_text
  write_stats_api path value = do
    c ← read_bytes path
    wrapping "write .bak" (write_file env (named (bak path)) c)
    wrapping "write tmp"
        (write_file env (named (path ++ codes ".tmp")) (raw (patch_text value (bytes c))))
    wrapping "rename tmp" (rename env (named (path ++ codes ".tmp")) (named path))
