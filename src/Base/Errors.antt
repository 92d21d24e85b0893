-- ===== src/Base/Errors.antt =====
-- Go's error values. Wrapping with `%w` is kept, since `errors.As` looks through it; the text
-- of a message is kept without its formatted arguments.
use mathlib.Core.Path.{◌≡◌, refl}
use mathlib.Core.Bool.{Bool, true, false}
use mathlib.Core.Logic.{◌⊎◌, inl, inr}
use Prim.Native.String.{String}
use flint2_xray_web_console.Base.Bytes.{Text}

pub data Error : Type 0 where
  fail : String → Error
  not_found : Text → Error
  wrap : String → Error → Error

pub data Result {ℓ} (A : Type ℓ) : Type ℓ where
  ok : A → Result A
  err : Error → Result A

-- Was the result a success?
abbrev pub is_ok {ℓ} : {A : Type ℓ} → Result A → Bool
is_ok (ok a) = true
is_ok (err e) = false

pub Result-cases {ℓ} :
    {A : Type ℓ} (r : Result A) → ((e : Error) × (r ≡ err e)) ⊎ ((a : A) × (r ≡ ok a))
Result-cases (ok a) = inr (a, refl)
Result-cases (err e) = inl (e, refl)

-- `fmt.Errorf("…: %w", err)` around a call
abbrev pub wrap_err {ℓ} : {A : Type ℓ} → String → Result A → Result A
wrap_err msg (ok a) = ok a
wrap_err msg (err e) = err (wrap msg e)

module _ {ℓ κ} {A : Type ℓ} {B : Type κ} where
  infixl 5 ◌>>=◌ ◌>>◌
  -- `if err != nil { return err }` after a call, and else the rest
  abbrev pub ◌>>=◌ : Result A → (A → Result B) → Result B
  err e >>= rest = err e
  ok a >>= rest = rest a

  abbrev pub ◌>>◌ : Result A → Result B → Result B
  r >> next = r >>= λ _. next

  -- What a call went through that returned no error.
  pub >>=-eq-ok :
      (r : Result A) (rest : A → Result B) {out : B}
      → (r >>= rest) ≡ ok out
      → (a : A) × (r ≡ ok a) × (rest a ≡ ok out)
  >>=-eq-ok (err e) rest h = cc
  >>=-eq-ok (ok a) rest h = (a, refl, h)
