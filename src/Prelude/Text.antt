-- ===== src/Prelude/Text.antt =====
-- A string literal of the program as its bytes, which are ASCII.
use Prim.Native.Nat.{ℕ}
use Prim.Native.Char.{code}
use Prim.Native.String.{String}
use mathlib.Core.List.{List, [], ◌∷◌}

abbrev pub codes : String → List ℕ
codes String.[] = []
codes (String.◌∷◌ c literal) = code c ∷ codes literal
