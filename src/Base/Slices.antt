-- ===== src/Base/Slices.antt =====
-- Go's slice expressions `s[:n]` and `s[n:]`, cut at the end of the list.
use Prim.Native.Nat.{ℕ, zero, suc, ◌-◌, ◌≤◌}
use mathlib.Core.Path.{◌≡◌, refl, ap}
use mathlib.Core.List.{List, [], ◌∷◌, ◌++◌}
use native.Mathlib.Omega.{arith}
use flint2_xray_web_console.Base.Tests.{length}

module _ {ℓ} {A : Type ℓ} where
  unfoldable pub take : ℕ → List A → List A
  take zero l = []
  take (suc n) [] = []
  take (suc n) (x ∷ l) = x ∷ take n l

  unfoldable pub drop : ℕ → List A → List A
  drop zero l = l
  drop (suc n) [] = []
  drop (suc n) (x ∷ l) = drop n l

  pub take-append : (l r : List A) → take (length l) (l ++ r) ≡ l
  unfolding take
  take-append [] r = refl
  take-append (x ∷ l) r = ap (λ t. x ∷ t) (take-append l r)

  pub drop-append : (l r : List A) → drop (length l) (l ++ r) ≡ r
  unfolding drop
  drop-append [] r = refl
  drop-append (x ∷ l) r = drop-append l r

  pub length-drop : (n : ℕ) (l : List A) → length (drop n l) ≡ length l - n
  unfolding drop
  length-drop zero l = omega arith
  length-drop (suc n) [] = omega arith
  length-drop (suc n) (x ∷ l) = omega (arith, length-drop n l)

  pub length-take : (n : ℕ) (l : List A) → length (take n l) ≤ n
  unfolding take
  length-take zero l = omega arith
  length-take (suc n) [] = omega arith
  length-take (suc n) (x ∷ l) = omega (arith, length-take n l)
