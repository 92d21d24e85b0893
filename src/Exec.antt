-- ===== src/Exec.antt =====
-- Functions that read and change a state and may return an error. What was changed before an
-- error stays changed, so the state comes back beside the error too.
use flint2_xray_web_console.Base.Errors.{Error, Result, ok, err, wrap}
use Prim.Native.String.{String}

abbrev pub Exec : Type 0 → Type 0 → Type 0
Exec S A = S → Result A × S

module _ {S A : Type 0} where
  abbrev pub pure : A → Exec S A
  pure a s = (ok a, s)

  abbrev pub raise : Error → Exec S A
  raise e s = (err e, s)

  abbrev pub lift : Result A → Exec S A
  lift r s = (r, s)

  -- `fmt.Errorf("…: %w", err)` around a call
  abbrev pub wrapping : String → Exec S A → Exec S A
  wrapping msg m s =
      let (r, s') = m s in elim r [ ok a ↦ (ok a, s') | err e ↦ (err (wrap msg e), s') ]

  -- `_ = call()`: the error is dropped, the effects stay.
  abbrev pub ignoring : Exec S A → Exec S (Unit {0})
  ignoring m s = (ok tt, (m s).1)

infixl 5 ◌>>=◌ ◌>>◌
abbrev pub ◌>>=◌ : {S A B : Type 0} → Exec S A → (A → Exec S B) → Exec S B
◌>>=◌ m f s = let (r, s') = m s in elim r [ ok a ↦ f a s' | err e ↦ (err e, s') ]

abbrev pub ◌>>◌ : {S A B : Type 0} → Exec S A → Exec S B → Exec S B
m >> k = m >>= λ _. k

-- `defer cleanup()`: it runs on every way out, and does not change the result.
abbrev pub deferring : {S A : Type 0} → Exec S (Unit {0}) → Exec S A → Exec S A
deferring cleanup m s = let (r, s') = m s in (r, (cleanup s').1)

-- `if err := call(); err != nil { undo(); return err }`
abbrev pub or_undo : {S A : Type 0} → Exec S (Unit {0}) → Exec S A → Exec S A
or_undo undo m s = let (r, s') = m s in elim r [ ok a ↦ (ok a, s') | err e ↦ (err e, (undo s').1) ]
