-- ===== src/Base/Text.antt =====
-- The bytes of a text literal.
use Prim.Native.Char.{code}
use Prim.Native.String.{String}
use dipp.Base.{ℕ, ◌+◌, ◌-◌, ◌*◌, List, [], ◌∷◌}

abbrev pub codes : String → List ℕ
codes String.[] = []
codes (String.◌∷◌ c s) = code c ∷ codes s

-- The number that digits stand for.
abbrev pub number_from : ℕ → List ℕ → ℕ
number_from n [] = n
number_from n (c ∷ cs) = number_from (n * 10 + (c - 48)) cs

abbrev pub number_of : List ℕ → ℕ
number_of = number_from 0
