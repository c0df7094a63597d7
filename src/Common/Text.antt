-- ===== src/Common/Text.antt =====
-- Text as its bytes.
use Prim.Native.Nat.{ℕ}
use mathlib.Core.List.{List, [], ◌∷◌}
use Prim.Native.Char.{code}
use Prim.Native.String.{String}

-- A text of ASCII characters.
abbrev pub ascii : String → List ℕ
ascii (String.◌∷◌ c text) = code c ∷ ascii text
ascii String.[] = []
