-- ===== src/Base/Text.antt =====
-- String constants of C.
use Prim.Native.String.{String}
use Prim.Native.Char.{code}
use duallive.Base.{ℕ, List, [], ◌∷◌}
use duallive.Base.Memory.{Bytes, nul_ended}

abbrev pub codes : String → List ℕ
codes String.[] = []
codes (String.◌∷◌ c s) = code c ∷ codes s

abbrev pub c_string : String → Bytes
c_string s = nul_ended (codes s)
