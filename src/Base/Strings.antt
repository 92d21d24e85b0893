-- ===== src/Base/Strings.antt =====
-- The functions of Go's package strings that the program calls, on ASCII text.
use Prim.Native.Nat.{ℕ}
use mathlib.Core.Bool.{Bool, true, false, ◌&&◌, ◌||◌}
use mathlib.Core.List.{[], ◌∷◌}
use flint2_xray_web_console.Base.Tests.{leb, ◌==◌, if◌then◌else◌, is_nil}
use flint2_xray_web_console.Base.Bytes.{Text}

-- tab, newline, vertical tab, form feed, carriage return, space
unfoldable pub is_space : ℕ → Bool
is_space c = (leb 9 c && leb c 13) || c == 32

unfoldable pub trim_left : Text → Text
unfolding is_space
trim_left [] = []
trim_left (c ∷ s) = if is_space c then trim_left s else c ∷ s

unfoldable pub trim_right : Text → Text
unfolding is_space
trim_right [] = []
trim_right (c ∷ s) = let r = trim_right s in if is_nil r && is_space c then [] else c ∷ r

-- `strings.TrimSpace`
unfoldable pub trim_space : Text → Text
unfolding trim_left trim_right
trim_space s = trim_right (trim_left s)

-- `strings.HasPrefix`
unfoldable pub has_prefix : Text → Text → Bool
has_prefix s [] = true
has_prefix [] (b ∷ t) = false
has_prefix (a ∷ s) (b ∷ t) = a == b && has_prefix s t

-- `strings.Contains`
unfoldable pub contains_text : Text → Text → Bool
unfolding has_prefix
contains_text [] t = is_nil t
contains_text (a ∷ s) t = has_prefix (a ∷ s) t || contains_text s t

-- the text up to the first newline
unfoldable pub first_line_of : Text → Text
first_line_of [] = []
first_line_of (c ∷ s) = let r = first_line_of s in if c == 10 then [] else c ∷ r
