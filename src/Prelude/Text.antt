-- ===== src/Prelude/Text.antt =====
-- Texts: decidable equality, and the test `strings.ToLower(s) == t`.
use Prim.Native.Nat.{ℕ, ◌+◌, compare, Ordering}
use Prim.Native.Char.{code}
use Prim.Native.String.{String}
use mathlib.Core.Path.{◌≡◌, refl}
use mathlib.Core.Bool.{Bool, true, false, ◌&&◌}
use mathlib.Core.List.{List, [], ◌∷◌}
use text.Mathlib.Text.{◌==◌}
use text.Mathlib.TextEquality.{eq_iff}

dec_of_test : (s t : String) (b : Bool) → (s == t) ≡ b → Dec (s ≡ t)
dec_of_test s t true h = yes ((eq_iff s t).0 h)
dec_of_test s t false h = no (λ e. cc ((eq_iff s t).1 e))

unfoldable pub String-discrete : Discrete String
unfolding dec_of_test
String-discrete s t = dec_of_test s t (s == t) refl

-- The code points of a text.
abbrev pub codes : String → List ℕ
codes String.[] = []
codes (String.◌∷◌ c s) = code c ∷ codes s

abbrev leb : ℕ → ℕ → Bool
leb a b = elim (compare a b) [ Ordering.gt ↦ false | _ ↦ true ]

abbrev nat_eq : ℕ → ℕ → Bool
nat_eq a b = elim (compare a b) [ Ordering.eq ↦ true | _ ↦ false ]

abbrev lower : ℕ → ℕ
lower c = elim (leb b'A' c && leb c b'Z') [ true ↦ c + 32 | false ↦ c ]

abbrev lower_codes_are : List ℕ → List ℕ → Bool
lower_codes_are [] [] = true
lower_codes_are [] (d ∷ t) = false
lower_codes_are (c ∷ s) [] = false
lower_codes_are (c ∷ s) (d ∷ t) = nat_eq (lower c) d && lower_codes_are s t

-- `strings.ToLower(s) == t`. Only the letters A to Z are lowered, which is exact for the two texts
-- that the program compares with, "true" and "false": no other character is lowered to a letter
-- of theirs.
unfoldable pub lower_is : String → String → Bool
lower_is s t = lower_codes_are (codes s) (codes t)
