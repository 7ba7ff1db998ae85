-- ===== src/EventBus/Wildcards.antt =====
-- The topics that a subscription of common/eventbus/event_bus.go hears.
use dapr_components_contrib.Prelude.{
  ℕ, Text, codes, text_eq, text_eq_iff, text_eq_refl, has_prefix, drop_prefix, cut_suffix,
  has_prefix→append, has_prefix-append, some, [], ◌∷◌, ◌++◌, ◌≡◌, ◌≢◌, refl, ap, ◌↔◌, ◌⊎◌, inl, inr,
  true, false, Bool-cases, Option-cases, arith, length, length-append, not, ◌&&◌,
}
use mathlib.Core.List.{append-nil}
use dapr_components_contrib.EventBus.{matches}

append_ne : (c : ℕ) (t p : Text) → c ∷ (t ++ p) ≢ p
append_ne c t p e = omega (arith, ap length e, length-append t p)

cut_suffix→append : (s p t : Text) → cut_suffix s p ≡ some t → s ≡ t ++ p
unfolding cut_suffix
cut_suffix→append [] p t h = ground (arith, text_eq_iff [] p)
cut_suffix→append (c ∷ s) p [] h = ground (arith, text_eq_iff (c ∷ s) p)
cut_suffix→append (c ∷ s) p (d ∷ t) h =
    ground (arith, text_eq_iff (c ∷ s) p, cut_suffix→append s p t)

cut_suffix-append : (p t : Text) → cut_suffix (t ++ p) p ≡ some t
unfolding cut_suffix
cut_suffix-append [] [] = refl
cut_suffix-append (c ∷ p) [] = ground (arith, text_eq_refl (c ∷ p))
cut_suffix-append p (c ∷ t) =
    ground (arith, text_eq_iff (c ∷ (t ++ p)) p, append_ne c t p, cut_suffix-append p t)

-- A pattern: a stem with a star behind it, and a topic with the stem and more
abbrev pub IsUnder : Text → Text → Type 0
IsUnder k topic =
    (stem : Text) × (c : ℕ) × (rest : Text) × (k ≡ stem ++ codes "*") × (topic ≡ stem ++ c ∷ rest)

longer_ne : (c : ℕ) (stem rest : Text) → stem ++ c ∷ rest ≢ stem
longer_ne c stem rest e = omega (arith, ap length e, length-append stem (c ∷ rest))

rest→IsUnder :
    (k topic stem rest : Text)
    → k ≡ stem ++ codes "*"
    → topic ≡ stem ++ rest
    → text_eq topic stem ≡ false
    → IsUnder k topic
rest→IsUnder k topic stem [] e h n = ground (arith, text_eq_iff topic stem, append-nil stem)
rest→IsUnder k topic stem (c ∷ rest) e h n = (stem, c, rest, e, h)

stem→IsUnder :
    (k topic stem : Text)
    → k ≡ stem ++ codes "*"
    → (has_prefix topic stem && not (text_eq topic stem)) ≡ true
    → IsUnder k topic
stem→IsUnder k topic stem e h =
    rest→IsUnder k topic stem (drop_prefix topic stem) e
      (ground (arith, has_prefix→append topic stem)) (ground arith)

stem_matches :
    (topic stem : Text) (c : ℕ) (rest : Text)
    → topic ≡ stem ++ c ∷ rest
    → (has_prefix topic stem && not (text_eq topic stem)) ≡ true
stem_matches topic stem c rest e = ground (
  arith,
  ap (λ t. has_prefix t stem) e,
  has_prefix-append stem (c ∷ rest),
  text_eq_iff topic stem,
  longer_ne c stem rest,
)

-- A subscription to `k` hears a topic exactly when they are the same, or when `k` is a stem with a
-- star behind it and the topic is the stem with at least one character more.
pub matches_iff : (k topic : Text) → (matches k topic ≡ true) ↔ ((k ≡ topic) ⊎ IsUnder k topic)
unfolding matches
matches_iff k topic = (
  λ h. elim (Bool-cases (text_eq k topic)) [
    | inl e ↦ inl ((text_eq_iff k topic).0 e)
    | inr e ↦ elim (Option-cases (cut_suffix k (codes "*"))) [
      | inl x ↦ ground arith
      | inr (stem, x) ↦
          inr (stem→IsUnder k topic stem (cut_suffix→append k (codes "*") stem x) (ground arith))
    ]
  ],
  λ h. elim h [
    | inl e ↦ ground (arith, text_eq_iff k topic)
    | inr (stem, c, rest, e, x) ↦ ground (
      arith,
      stem_matches topic stem c rest x,
      ap (λ t. cut_suffix t (codes "*")) e,
      cut_suffix-append (codes "*") stem,
    )
  ],
)
