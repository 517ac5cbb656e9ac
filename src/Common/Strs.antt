-- ===== src/Common/Strs.antt =====
-- Go strings: byte sequences, compared as wholes.
use Prim.Native.Char.{code}
use Prim.Native.Nat.{ℕ}
use Prim.Native.String.{String}
use mathlib.Core.List.{[], List, ◌∷◌}
use mathlib.Core.Bool.{Bool, true, false}
use mathlib.Core.Logic.{ite}
use native.Mathlib.Decide.{ℕ_discrete}

abbrev pub Str : Type 0
Str = List ℕ

-- The bytes of an ASCII literal.
abbrev pub bytes : String → Str
bytes String.[] = []
bytes (String.◌∷◌ c s) = code c ∷ bytes s

unfoldable pub str_eq : Discrete Str
unfolding ℕ_discrete
str_eq = hlevel ℕ_discrete

-- A set of strings: Go's `map[string]bool`, read at a key.
unfoldable pub str_mem : Str → List Str → Bool
unfolding str_eq
str_mem n [] = false
str_mem n (x ∷ xs) = ite (str_eq x n) true (str_mem n xs)
