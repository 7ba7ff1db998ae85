-- ===== src/SecretStores/Env/Agreement.antt =====
-- secretstores/local/env/envstore.go: BulkGetSecret against GetSecret, on systems other than Windows.
use dapr_components_contrib.Prelude.{
  Text, text_eq, text_eq_iff, Option, none, some, List, [], ◌∷◌, ◌++◌, map, false, not, ◌&&◌, ◌||◌,
  ◌≡◌, refl, ap, ◌∙◌, subst, arith, Bool-cases, and_true, inl, inr,
}
use dapr_components_contrib.Dict.{Dict, lookup, Absent, Distinct}
use dapr_components_contrib.Dict.Laws.{lookup-Absent}
use dapr_components_contrib.SecretStores.Env.{
  split_variable, is_key_allowed, get_secret, add_variable, add_variables, unless_panic,
  bulk_get_secret,
}
use dapr_components_contrib.SecretStores.Env.Names.{
  is_listed, answer_or, Adds, add_variable_lem, with_value, value_of, answered,
}

module _ (to_upper : Text → Text) where
  abbrev found : Text → Text → Option Text → Option (Dict Text) → Option (Dict Text)
  found prefix name none other = other
  found prefix name (some v) other =
      answer_or to_upper (is_listed to_upper prefix name) name v other

  add_variables_lem :
      (prefix name : Text) (env : List Text) (variables : Dict Text) (r : Dict (Dict Text))
      → map split_variable env ≡ map with_value variables
      → Distinct variables
      → (all : Dict (Dict Text)) × (add_variables false to_upper prefix env r ≡ some all)
        × (lookup name all ≡ found prefix name (lookup (prefix ++ name) variables) (lookup name r))
  unfolding add_variables lookup Adds unless_panic
  add_variables_lem prefix name [] [] r e d = (r, refl, refl)
  add_variables_lem prefix name [] (v ∷ variables) r e d = ground arith
  add_variables_lem prefix name (element ∷ env) [] r e d = ground arith
  add_variables_lem prefix name (element ∷ env) ((k, v) ∷ variables) r e d =
      let first : split_variable element ≡ (k, some v) = ground (arith, e) in
      let (r', p, q) = add_variable_lem to_upper prefix name k v r in
      let (all, a, l) = add_variables_lem prefix name env variables r' (ground (arith, e)) d.1 in
      let rest = add_variables false to_upper prefix env in
      (
        all,
        ap (λ z. unless_panic (add_variable false to_upper prefix z r) rest) first
            ∙ (ap (λ o. unless_panic o rest) p ∙ a),
        l ∙ elim (Bool-cases (text_eq k (prefix ++ name))) [
          | inl same ↦
              rw
                (
                  same,
                  lookup-Absent (prefix ++ name) variables (
                      subst (λ t. Absent t variables) ((text_eq_iff k (prefix ++ name)).0 same)
                        d.0),
                )
                (q
                  ∙ ap
                      (λ b.
                        answer_or to_upper (b && is_listed to_upper prefix name) name v
                          (lookup name r))
                      same)
          | inr other ↦ rw other (
              ap (found prefix name (lookup (prefix ++ name) variables)) (
                q
                ∙ ap
                    (λ b.
                      answer_or to_upper (b && is_listed to_upper prefix name) name v
                        (lookup name r))
                    other))
        ],
      )

  listed_value :
      (prefix name : Text) (getenv : Text → Text) (o : Option Text)
      → getenv (prefix ++ name) ≡ value_of o
      → found prefix name o none
        ≡ answered (is_listed to_upper prefix name) o (get_secret false to_upper prefix getenv name)
  unfolding get_secret
  listed_value prefix name getenv none g = refl
  listed_value prefix name getenv (some v) g = elim (Bool-cases (is_listed to_upper prefix name)) [
    | inl e ↦
        rw
          (
            e,
            (and_true (text_eq prefix [] || not (text_eq name []))
                (is_key_allowed false to_upper (prefix ++ name)) e).1,
            g,
          )
          refl
    | inr e ↦ rw e refl
  ]

  -- When the environment holds each variable once, BulkGetSecret does not panic and has for a name what
  -- GetSecret answers, if the variable is there, is allowed, and its name is longer than the prefix
  -- where there is one; it has no other name.
  pub bulk_get_secret-get_secret :
      (prefix name : Text) (env : List Text) (variables : Dict Text) (getenv : Text → Text)
      → map split_variable env ≡ map with_value variables
      → Distinct variables
      → ((n : Text) → getenv n ≡ value_of (lookup n variables))
      → (all : Dict (Dict Text)) × (bulk_get_secret false to_upper prefix env ≡ some all)
        × (lookup name all
            ≡ answered
                (is_listed to_upper prefix name)
                (lookup (prefix ++ name) variables)
                (get_secret false to_upper prefix getenv name))
  unfolding bulk_get_secret lookup
  bulk_get_secret-get_secret prefix name env variables getenv e d g =
      let (all, a, l) = add_variables_lem prefix name env variables [] e d in
      (
        all,
        a,
        l
            ∙ listed_value prefix name getenv (lookup (prefix ++ name) variables)
                (g (prefix ++ name)),
      )
