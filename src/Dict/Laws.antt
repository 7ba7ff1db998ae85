-- ===== src/Dict/Laws.antt =====
-- The laws of Go's maps: reading after a write, and the one entry for each key.
use dapr_components_contrib.Prelude.{
  Text, text_eq, text_eq_iff, none, some, [], ◌∷◌, ◌≡◌, refl, if◌then◌else◌, arith, true, false,
  inl, inr, Bool-cases, subst,
}
use dapr_components_contrib.Dict.{Dict, lookup, insert, delete, Absent, Distinct, AllValues}

pub text_eq-sym : (a b : Text) → text_eq a b ≡ false → text_eq b a ≡ false
text_eq-sym a b h = ground (arith, text_eq_iff a b, text_eq_iff b a)

-- Two texts that are told apart by a third are different.
pub text_eq_split : (i j k : Text) → text_eq i k ≡ true → text_eq j k ≡ false → text_eq j i ≡ false
text_eq_split i j k h n = ground (arith, text_eq_iff i k, text_eq_iff j i, text_eq_iff j k)

module _ {ℓ} {V : Type ℓ} where
  pub lookup-Absent : (k : Text) (m : Dict V) → Absent k m → lookup k m ≡ none
  unfolding lookup
  lookup-Absent k [] h = refl
  lookup-Absent k ((j, v) ∷ m) h = rw h.0 (lookup-Absent k m h.1)

  pub Absent-lookup : (k : Text) (m : Dict V) → lookup k m ≡ none → Absent k m
  unfolding lookup
  Absent-lookup k [] h = tt
  Absent-lookup k ((j, v) ∷ m) h = ground (arith, Absent-lookup k m)

  pub lookup-insert :
      (key wanted : Text) (value : V) (entries : Dict V)
      → lookup wanted (insert key value entries)
        ≡ (if text_eq key wanted then some value else lookup wanted entries)
  unfolding insert lookup
  lookup-insert key wanted value ((i, old) ∷ entries) = ground (
    arith,
    lookup-insert key wanted value entries,
    text_eq_iff i wanted,
    text_eq_iff i key,
    text_eq_iff key wanted,
  )
  lookup-insert key wanted value [] = refl

  pub Absent-insert :
      (i k : Text) (v : V) (m : Dict V) → text_eq k i ≡ false → Absent i m → Absent i (insert k v m)
  unfolding insert
  Absent-insert i k v [] n h = (n, tt)
  Absent-insert i k v ((j, w) ∷ m) n h = ground (arith, Absent-insert i k v m)

  pub Absent-delete : (i k : Text) (m : Dict V) → Absent i m → Absent i (delete k m)
  unfolding delete
  Absent-delete i k [] h = tt
  Absent-delete i k ((j, w) ∷ m) h = ground (arith, Absent-delete i k m)

  Absent-same : (i k : Text) (m : Dict V) → text_eq i k ≡ true → Absent i m → Absent k m
  Absent-same i k m e h = subst (λ t. Absent t m) ((text_eq_iff i k).0 e) h

  pub lookup-delete :
      (k j : Text) (m : Dict V)
      → Distinct m
      → lookup j (delete k m) ≡ (if text_eq k j then none else lookup j m)
  unfolding lookup delete
  lookup-delete k j [] d = ground arith
  lookup-delete k j ((i, w) ∷ m) d = ground (
    arith,
    text_eq_iff k j,
    text_eq_iff i k,
    text_eq_iff i j,
    lookup-delete k j m d.1,
    lookup-Absent j m,
    Absent-same i j m,
  )

  pub Distinct-insert : (k : Text) (v : V) (m : Dict V) → Distinct m → Distinct (insert k v m)
  unfolding insert
  Distinct-insert k v [] d = (tt, tt)
  Distinct-insert k v ((j, w) ∷ m) d =
      ground (arith, Distinct-insert k v m, Absent-insert j k v m, text_eq-sym j k)

  pub Distinct-delete : (k : Text) (m : Dict V) → Distinct m → Distinct (delete k m)
  unfolding delete
  Distinct-delete k [] d = tt
  Distinct-delete k ((j, w) ∷ m) d = ground (arith, Distinct-delete k m, Absent-delete j k m)

module _ {ℓ κ} {V : Type ℓ} (P : V → Type κ) where
  pub AllValues-insert :
      (k : Text) (v : V) (m : Dict V) → P v → AllValues P m → AllValues P (insert k v m)
  unfolding insert
  AllValues-insert k v [] p h = (p, tt)
  AllValues-insert k v ((j, w) ∷ m) p h = elim (Bool-cases (text_eq j k)) [
    | inl e ↦ rw e (p, h.1)
    | inr e ↦ rw e (h.0, AllValues-insert k v m p h.1)
  ]

  pub AllValues-delete : (k : Text) (m : Dict V) → AllValues P m → AllValues P (delete k m)
  unfolding delete
  AllValues-delete k [] h = tt
  AllValues-delete k ((j, w) ∷ m) h = elim (Bool-cases (text_eq j k)) [
    | inl e ↦ rw e h.1
    | inr e ↦ rw e (h.0, AllValues-delete k m h.1)
  ]

  pub AllValues-lookup : (k : Text) (m : Dict V) {v : V} → AllValues P m → lookup k m ≡ some v → P v
  unfolding lookup
  AllValues-lookup k [] h e = cc
  AllValues-lookup k ((j, w) ∷ m) h e = elim (Bool-cases (text_eq j k)) [
    | inl t ↦ subst P (ground arith) h.0
    | inr t ↦ AllValues-lookup k m h.1 (ground arith)
  ]
