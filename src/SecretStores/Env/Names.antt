-- ===== src/SecretStores/Env/Names.antt =====
-- secretstores/local/env/envstore.go: what one variable adds to BulkGetSecret, on systems other than
-- Windows.
use dapr_components_contrib.Prelude.{
  Text, text_eq, text_eq_iff, text_eq_refl, Option, none, some, List, [], ◌∷◌, ◌++◌, length,
  length-append, take, drop, take-append-drop, Bool, true, false, not, ◌&&◌, ◌||◌, leb, ltb,
  if◌then◌else◌, ◌≡◌, refl, ap, sym, ◌∙◌, subst, arith, Bool-cases, inl, inr,
}
use dapr_components_contrib.Dict.{Dict, lookup, insert}
use dapr_components_contrib.Dict.Laws.{lookup-insert}
use dapr_components_contrib.SecretStores.Env.{is_key_allowed, is_skipped, add_variable}

take-front {ℓ} : {A : Type ℓ} (xs ys : List A) → take (length xs) (xs ++ ys) ≡ xs
take-front [] ys = refl
take-front (x ∷ xs) ys = ap (◌∷◌ x) (take-front xs ys)

drop-front {ℓ} : {A : Type ℓ} (xs ys : List A) → drop (length xs) (xs ++ ys) ≡ ys
drop-front [] ys = refl
drop-front (x ∷ xs) ys = drop-front xs ys

text_eq-front : (p s t : Text) → text_eq (p ++ s) (p ++ t) ≡ text_eq s t
unfolding text_eq
text_eq-front [] s t = refl
text_eq-front (c ∷ p) s t = ground (arith, text_eq-front p s t)

leb-front : (p s : Text) → leb (length (p ++ s)) (length p) ≡ text_eq s []
unfolding text_eq
leb-front p [] = ground (arith, length-append p [])
leb-front p (c ∷ s) = ground (arith, length-append p (c ∷ s))

not_shorter : (p s : Text) → ltb (length (p ++ s)) (length p) ≡ false
not_shorter p s = ground (arith, length-append p s)

skipped_lem : (a b : Bool) → (not a && (b || false || false)) ≡ not (a || not b)
skipped_lem true b = refl
skipped_lem false true = refl
skipped_lem false false = refl

abbrev pub with_value : Text × Text → Text × Option Text
with_value (k, v) = (k, some v)

-- what GetSecret reads, for a variable that may be there
abbrev pub value_of : Option Text → Text
value_of none = []
value_of (some v) = v

abbrev pub answered : Bool → Option Text → Dict Text → Option (Dict Text)
answered listed none d = none
answered listed (some v) d = if listed then some d else none

module _ (to_upper : Text → Text) where
  -- A name is listed where it is not the empty one below a prefix, and its variable is allowed.
  abbrev pub is_listed : Text → Text → Bool
  is_listed prefix name =
      (text_eq prefix [] || not (text_eq name [])) && is_key_allowed false to_upper (prefix ++ name)

  is_skipped-front :
      (prefix name : Text)
      → is_skipped false to_upper prefix (prefix ++ name)
        ≡ not (text_eq prefix [] || not (text_eq name []))
  unfolding is_skipped
  is_skipped-front prefix name =
      rw (leb-front prefix name, take-front prefix name, text_eq_refl prefix)
        (skipped_lem (text_eq prefix []) (text_eq name []))

  choose {ℓ} :
      {A : Type ℓ} (a b : Bool) (x y : A)
      → (if not a then some x else if not b then some x else some y)
        ≡ some (if a && b then y else x)
  choose true true x y = refl
  choose true false x y = refl
  choose false b x y = refl

  add_variable-front :
      (prefix name v : Text) (r : Dict (Dict Text))
      → add_variable false to_upper prefix (prefix ++ name, some v) r
        ≡ some (if is_listed prefix name then insert name ((name, v) ∷ []) r else r)
  unfolding add_variable
  add_variable-front prefix name v r =
      rw (is_skipped-front prefix name, drop-front prefix name, not_shorter prefix name)
        (choose (text_eq prefix [] || not (text_eq name []))
          (is_key_allowed false to_upper (prefix ++ name)) r (insert name ((name, v) ∷ []) r))

  other_skipped :
      (prefix k : Text)
      → text_eq (take (length prefix) k) prefix ≡ false
      → is_skipped false to_upper prefix k ≡ true
  unfolding is_skipped text_eq
  other_skipped [] k h = ground (arith, h)
  other_skipped (c ∷ p) k h = rw h (or_true (leb (length k) (length (c ∷ p))))
    where
      or_true : (b : Bool) → (b || false || true) ≡ true
      or_true true = refl
      or_true false = refl

  other_prefix :
      (prefix k v : Text) (r : Dict (Dict Text))
      → text_eq (take (length prefix) k) prefix ≡ false
      → add_variable false to_upper prefix (k, some v) r ≡ some r
  unfolding add_variable
  other_prefix prefix k v r h = rw (other_skipped prefix k h) refl

  -- the answers with those of one variable
  abbrev with_variable : Text → Text → Text → Dict (Dict Text) → Dict (Dict Text)
  with_variable prefix name v r =
      if is_listed prefix name then insert name ((name, v) ∷ []) r else r

  abbrev pub answer_or : Bool → Text → Text → Option (Dict Text) → Option (Dict Text)
  answer_or b name v other = if b then some ((name, v) ∷ []) else other

  lookup-with_variable_same :
      (prefix name v : Text) (r : Dict (Dict Text))
      → lookup name (with_variable prefix name v r)
        ≡ answer_or (is_listed prefix name) name v (lookup name r)
  lookup-with_variable_same prefix name v r = elim (Bool-cases (is_listed prefix name)) [
    | inl e ↦ rw (e, lookup-insert name name ((name, v) ∷ []) r, text_eq_refl name) refl
    | inr e ↦ rw e refl
  ]

  lookup-with_variable_other :
      (prefix x name v : Text) (r : Dict (Dict Text))
      → text_eq x name ≡ false
      → lookup name (with_variable prefix x v r) ≡ lookup name r
  lookup-with_variable_other prefix x name v r h = elim (Bool-cases (is_listed prefix x)) [
    | inl e ↦ rw (e, lookup-insert x name ((x, v) ∷ []) r, h) refl
    | inr e ↦ rw e refl
  ]

  -- What one variable adds to the answers.
  unfoldable pub Adds : Text → Text → Text → Text → Dict (Dict Text) → Type 0
  Adds prefix name k v r =
      (r' : Dict (Dict Text)) × (add_variable false to_upper prefix (k, some v) r ≡ some r')
      × (lookup name r'
          ≡ answer_or (text_eq k (prefix ++ name) && is_listed prefix name) name v (lookup name r))

  add_variable_below :
      (prefix name x v : Text) (r : Dict (Dict Text)) → Adds prefix name (prefix ++ x) v r
  unfolding Adds
  add_variable_below prefix name x v r = (
    with_variable prefix x v r,
    add_variable-front prefix x v r,
    elim (Bool-cases (text_eq x name)) [
      | inl e ↦
          rw (text_eq-front prefix x name, e)
            (subst
              (λ z.
                lookup name (with_variable prefix z v r)
                ≡ answer_or (is_listed prefix name) name v (lookup name r))
              (sym ((text_eq_iff x name).0 e)) (lookup-with_variable_same prefix name v r))
      | inr e ↦ rw (text_eq-front prefix x name, e) (lookup-with_variable_other prefix x name v r e)
    ],
  )

  not_below :
      (prefix k name : Text)
      → text_eq (take (length prefix) k) prefix ≡ false
      → text_eq k (prefix ++ name) ≡ false
  not_below prefix k name h = elim (Bool-cases (text_eq k (prefix ++ name))) [
    | inr e ↦ e
    | inl e ↦
        let t = (text_eq_iff (take (length prefix) k) prefix).1 (
          ap (take (length prefix)) ((text_eq_iff k (prefix ++ name)).0 e)
          ∙ take-front prefix name) in
        ground (arith, h, t)
  ]

  pub add_variable_lem : (prefix name k v : Text) (r : Dict (Dict Text)) → Adds prefix name k v r
  unfolding Adds
  add_variable_lem prefix name k v r = elim (Bool-cases (text_eq (take (length prefix) k) prefix)) [
    | inr e ↦ (r, other_prefix prefix k v r e, rw (not_below prefix k name e) refl)
    | inl e ↦
        subst (λ z. Adds prefix name z v r)
          (ap (λ f. f ++ drop (length prefix) k) (sym ((text_eq_iff _ prefix).0 e))
            ∙ take-append-drop (length prefix) k)
          (add_variable_below prefix name (drop (length prefix) k) v r)
  ]
