-- ===== src/Base/Decimal.antt =====
-- Go's strconv.ParseInt in base 10 for 64 bits, strconv.Atoi, and the sum of two int64.
use Prim.Native.Nat.{ℕ, zero, suc, ◌+◌, ◌-◌, ◌*◌, ◌%◌, ◌^◌}
use mathlib.Core.Bool.{Bool, ◌&&◌, not}
use mathlib.Core.Option.{Option, none, some}
use mathlib.Core.List.{[], ◌∷◌}
use flint2_xray_web_console.Base.Tests.{ltb, leb, ◌==◌, if◌then◌else◌, is_nil}
use flint2_xray_web_console.Base.Bytes.{Text}
use flint2_xray_web_console.Base.Int.{ℤ, pos, negsuc, in_int64}

abbrev pub is_digit : ℕ → Bool
is_digit c = leb 48 c && leb c 57

-- The value of decimal digits after `acc`, as ParseUint computes it: past 64 bits it returns the
-- largest number without reading on.
unfoldable pub digits : ℕ → Text → Option ℕ
digits acc [] = some acc
digits acc (c ∷ s) =
    let n = acc * 10 + (c - 48) in
    let rest = digits n s in
    if not (is_digit c) then none else if ltb n (2 ^ 64) then rest else some (2 ^ 64 - 1)

-- at least one digit
unfoldable pub unsigned : Text → Option ℕ
unfolding digits
unsigned s = if is_nil s then none else digits 0 s

abbrev pub negate : ℕ → ℤ
negate zero = pos 0
negate (suc n) = negsuc n

-- an optional sign, then digits
unfoldable pub signed : Text → Option ℤ
unfolding unsigned
signed [] = none
signed (c ∷ s) =
    if c == 45
    then elim (unsigned s) [ none ↦ none | some n ↦ some (negate n) ]
    else if c == 43
    then elim (unsigned s) [ none ↦ none | some n ↦ some (pos n) ]
    else elim (unsigned (c ∷ s)) [ none ↦ none | some n ↦ some (pos n) ]

-- the closest int64
unfoldable pub saturate : ℤ → ℤ
saturate (pos n) = if ltb n (2 ^ 63) then pos n else pos (2 ^ 63 - 1)
saturate (negsuc n) = if ltb n (2 ^ 63) then negsuc n else negsuc (2 ^ 63 - 1)

-- The number that `ParseInt` returns, with or without an error: 0 on bad syntax, and out of range
-- the closest int64.
unfoldable pub parse_int : Text → ℤ
unfolding signed saturate
parse_int s = elim (signed s) [ none ↦ pos 0 | some z ↦ saturate z ]

-- `Atoi`: `none` is an error
unfoldable pub atoi : Text → Option ℤ
unfolding signed
atoi s = elim (signed s) [ none ↦ none | some z ↦ if in_int64 z then some z else none ]

-- two's complement with 64 bits
unfoldable pub wrap_int64 : ℤ → ℤ
wrap_int64 (pos n) = let m = n % 2 ^ 64 in if ltb m (2 ^ 63) then pos m else negsuc (2 ^ 64 - 1 - m)
wrap_int64 (negsuc n) =
    let m = n % 2 ^ 64 in if ltb m (2 ^ 63) then negsuc m else pos (2 ^ 64 - 1 - m)

infixl 60 ◌+ℤ◌
unfoldable pub ◌+ℤ◌ : ℤ → ℤ → ℤ
pos m +ℤ pos n = pos (m + n)
pos m +ℤ negsuc n = if leb (suc n) m then pos (m - suc n) else negsuc (n - m)
negsuc m +ℤ pos n = if leb (suc m) n then pos (n - suc m) else negsuc (m - n)
negsuc m +ℤ negsuc n = negsuc (m + n + 1)

-- the sum of two int64, as Go computes it
unfoldable pub add_int64 : ℤ → ℤ → ℤ
unfolding wrap_int64 ◌+ℤ◌
add_int64 a b = wrap_int64 (a +ℤ b)
