-- ===== src/Prelude/Errors.antt =====
-- What a Go function returns beside its value: an error, or a panic that unwinds it.
use Prim.Native.String.{String}
use mathlib.Core.List.{List}
use mathlib.Core.Logic.{◌⊎◌}

-- `fmt.Errorf`: a format with the arguments that it is given, and the error that `%w` wraps.
pub data Error : Type 0 where
  errorf : String → List String → Error
  wrapf : String → List String → Error → Error

-- `panicked` is a run-time panic: a nil pointer dereference or a write to a nil map.
pub data Outcome {ℓ} (A : Type ℓ) : Type ℓ where
  ok : A → Outcome A
  err : Error → Outcome A
  panicked : Outcome A

-- The result of a call that returns an error or a value.
abbrev pub Fallible {ℓ} : Type ℓ → Type ℓ
Fallible A = Error ⊎ A
