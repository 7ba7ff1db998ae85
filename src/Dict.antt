-- ===== src/Dict.antt =====
-- Go's `map[string]V` as an association list. Reading gives the first entry of a key, writing
-- replaces it or adds an entry, and the list's order stands for the unspecified order in which
-- Go ranges over a map. The maps that a program builds have one entry for each key.
pub mod Laws
use dapr_components_contrib.Prelude.{
  Text, text_eq, Option, none, some, List, [], ◌∷◌, ◌≡◌, if◌then◌else◌, All, Bool, true, false,
}

abbrev pub Dict {ℓ} : Type ℓ → Type ℓ
Dict V = List (Text × V)

module _ {ℓ} {V : Type ℓ} where
  -- m[k], with its second result
  unfoldable pub lookup : Text → Dict V → Option V
  unfolding text_eq
  lookup wanted [] = none
  lookup wanted ((key, value) ∷ rest) =
      if text_eq key wanted then some value else lookup wanted rest

  -- m[k] = v
  unfoldable pub insert : Text → V → Dict V → Dict V
  unfolding text_eq
  insert key value [] = (key, value) ∷ []
  insert key value ((other, old) ∷ rest) =
      if text_eq other key then (other, value) ∷ rest else (other, old) ∷ insert key value rest

  -- delete(m, k)
  unfoldable pub delete : Text → Dict V → Dict V
  unfolding text_eq
  delete k [] = []
  delete k ((j, w) ∷ m) = if text_eq j k then m else (j, w) ∷ delete k m

  -- No entry of the list has the key.
  abbrev pub Absent : Text → Dict V → Type 0
  Absent k [] = Unit
  Absent k ((j, v) ∷ m) = (text_eq j k ≡ false) × Absent k m

  -- One entry for each key.
  abbrev pub Distinct : Dict V → Type 0
  Distinct [] = Unit
  Distinct ((j, v) ∷ m) = Absent j m × Distinct m

-- A predicate that holds of every value of the map.
abbrev pub AllValues {ℓ κ} : {V : Type ℓ} → (V → Type κ) → Dict V → Type κ
AllValues P [] = Unit
AllValues P ((j, v) ∷ m) = P v × AllValues P m
