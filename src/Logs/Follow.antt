-- ===== src/Logs/Follow.antt =====
-- `Streamer.Follow` of internal/logs/stream.go: the state between two ticks, and what a tick sends.
pub mod Growth
use flint2_xray_web_console.Base.{
  ℕ, ◌+◌, ◌-◌, Bool, true, false, Option, none, some, List, [], ◌∷◌, ◌++◌, Text, if◌then◌else◌, ltb,
  leb, ◌==◌, not, ◌&&◌, ◌||◌, length,
}
use flint2_xray_web_console.Base.Slices.{take, drop}
use flint2_xray_web_console.Logs.Lines.{lines}

-- how `os.Stat` ends: no such file, another error, or an inode (0 where there is none) and a size
pub data Stat : Type 0 where
  gone : Stat
  failed : Stat
  found : ℕ → ℕ → Stat

-- the variables of the loop
pub record Cursor : Type 0 where
  pub pos : ℕ
  pub ino : ℕ
  pub carry : Text
  pub opened : Bool

-- before the first tick: at the end of the file, if there is one
unfoldable pub start : Stat → Cursor
start (found ino size) = record { pos = size; ino = ino; carry = []; opened = true }
start _ = record { pos = 0; ino = 0; carry = []; opened = false }

-- the test for a rotation
unfoldable pub is_rotated : ℕ → ℕ → Cursor → Bool
is_rotated ino size c =
    not c.opened || ltb size c.pos || (not (c.ino == 0) && not (ino == 0) && not (ino == c.ino))

-- the cursor once the file is found
unfoldable pub located : ℕ → ℕ → Cursor → Cursor
unfolding is_rotated
located ino size c =
    if is_rotated ino size c
    then record { pos = 0; ino = ino; carry = []; opened = true }
    else record c { ino = ino }

-- The bytes read by `ReadAt`, split with the carry before them; the lines go to the channel.
unfoldable pub consume : Text → Cursor → List Text × Cursor
consume bytes c =
    let (ls, rest) = lines (c.carry ++ bytes) in
    (ls, record c { pos = c.pos + length bytes; carry = rest })

-- From `if size <= pos` on. The contents are those at `Open`, where it works; the file may have
-- changed since `Stat`.
unfoldable pub advance : ℕ → Option Text → Cursor → List Text × Cursor
advance size contents c =
    if leb size c.pos
    then ([], c)
    else elim contents [ none ↦ ([], c) | some s ↦ consume (take (size - c.pos) (drop c.pos s)) c ]

-- one tick
unfoldable pub tick : Stat → Option Text → Cursor → List Text × Cursor
unfolding located advance
tick gone contents c = ([], record c { pos = 0; carry = []; opened = false })
tick failed contents c = ([], c)
tick (found ino size) contents c = advance size contents (located ino size c)
