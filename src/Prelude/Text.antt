-- ===== src/Prelude/Text.antt =====
-- The bytes of an ASCII literal.
use Prim.Native.Nat.{ℕ}
use Prim.Native.Char.{code}
use Prim.Native.String.{String}
use mathlib.Core.List.{List, [], ◌∷◌}

abbrev pub codes : String → List ℕ
codes String.[] = []
codes (String.◌∷◌ c rest) = code c ∷ codes rest
