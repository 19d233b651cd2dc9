-- ===== src/Prelude/Text.antt =====
-- A Go string is a list of bytes.
use Prim.Native.Char.{code}
use Prim.Native.String.{String}
use Prim.Native.Nat.{ℕ}
use mathlib.Core.List.{List, [], ◌∷◌}
use mathlib.Core.Bool.{true, false}
use mathlib.Core.Path.{◌≡◌, refl}
use mathlib.Core.Logic.{ite}
use native.Mathlib.Decide.{ℕ_discrete}

abbrev pub Text : Type 0
Text = List ℕ

-- The bytes of an ASCII literal.
abbrev pub text : String → Text
text String.[] = []
text (String.◌∷◌ c s) = code c ∷ text s

unfoldable pub text_discrete : Discrete Text
unfolding ℕ_discrete
text_discrete = hlevel ℕ_discrete

test_eq : ite (text_discrete (text "ab") (text "ab")) true false ≡ true
unfolding text_discrete
test_eq = refl

test_ne : ite (text_discrete (text "ab") (text "ac")) true false ≡ false
unfolding text_discrete
test_ne = refl
