-- ===== src/Prelude/Split.antt =====
-- What the program uses of Go's `strings.Split` and `strings.Join`, at a separator of one character.
use Prim.Native.Nat.{ℕ}
use mathlib.Core.List.{List, [], ◌∷◌, ◌++◌}
use dapr_components_contrib.Prelude.Tests.{◌==◌, if◌then◌else◌}
use dapr_components_contrib.Prelude.Texts.{Text}

-- strings.Join
unfoldable pub join : List Text → Text → Text
join [] sep = []
join (s ∷ []) sep = s
join (s ∷ t ∷ rest) sep = s ++ sep ++ join (t ∷ rest) sep

-- a character before the first of the parts
unfoldable pub cons_part : ℕ → List Text → List Text
cons_part c [] = (c ∷ []) ∷ []
cons_part c (p ∷ ps) = (c ∷ p) ∷ ps

-- strings.Split
unfoldable pub split : Text → ℕ → List Text
unfolding cons_part
split [] sep = [] ∷ []
split (c ∷ s) sep = let rest = split s sep in if c == sep then [] ∷ rest else cons_part c rest
