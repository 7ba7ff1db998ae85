-- ===== src/SecretStores/Env/Access.antt =====
-- secretstores/local/env/envstore.go: the variables that are never shown.
use dapr_components_contrib.Prelude.{
  Text, Option, none, some, List, [], ◌∷◌, ◌++◌, keep, Bool, true, false, ◌≡◌, refl, Bool-cases,
  inl, inr,
}
use dapr_components_contrib.Dict.{Dict}
use dapr_components_contrib.SecretStores.Env.{
  split_variable, is_key_allowed, get_secret, compared_prefix, is_skipped, add_variable,
  add_variables, unless_panic, bulk_get_secret,
}

unless_panic-ap {ℓ} :
    {A : Type ℓ} (o : Option A) (f g : A → Option A)
    → ((a : A) → f a ≡ g a)
    → unless_panic o f ≡ unless_panic o g
unfolding unless_panic
unless_panic-ap none f g h = refl
unless_panic-ap (some a) f g h = h a

module _ (windows : Bool) (to_upper : Text → Text) where
  abbrev pub is_public : Text → Bool
  is_public element = is_key_allowed windows to_upper (split_variable element).0

  get_secret-getenv :
      (prefix name : Text) (getenv other : Text → Text)
      → ((n : Text) → is_key_allowed windows to_upper n ≡ true → getenv n ≡ other n)
      → get_secret windows to_upper prefix getenv name
        ≡ get_secret windows to_upper prefix other name
  unfolding get_secret
  get_secret-getenv prefix name getenv other h =
      elim (Bool-cases (is_key_allowed windows to_upper (prefix ++ name))) [
        | inl e ↦ rw (e, h (prefix ++ name) e) refl
        | inr e ↦ rw e refl
      ]

  add_variable_forbidden :
      (prefix : Text) (variable : Text × Option Text) (r : Dict (Dict Text))
      → is_key_allowed windows to_upper variable.0 ≡ false
      → add_variable windows to_upper prefix variable r ≡ some r
  unfolding add_variable
  add_variable_forbidden prefix (key, v) r h =
      elim (Bool-cases
        (is_skipped windows to_upper (compared_prefix windows to_upper prefix) key)) [
          | inl e ↦ rw e refl
          | inr e ↦ rw (e, h) refl
        ]

  add_variables-keep :
      (prefix : Text) (env : List Text) (r : Dict (Dict Text))
      → add_variables windows to_upper prefix (keep is_public env) r
        ≡ add_variables windows to_upper prefix env r
  unfolding add_variables
  add_variables-keep prefix [] r = refl
  add_variables-keep prefix (element ∷ env) r = elim (Bool-cases (is_public element)) [
    | inl e ↦ rw e (
        unless_panic-ap (add_variable windows to_upper prefix (split_variable element) r) _ _
          (add_variables-keep prefix env))
    | inr e ↦
        rw (e, add_variable_forbidden prefix (split_variable element) r e)
          (add_variables-keep prefix env r)
  ]

  -- What the store answers depends on no variable whose name is not allowed: GetSecret is the same in
  -- two environments that agree on the allowed names, and BulkGetSecret is what it is without the
  -- others.
  pub forbidden_unseen :
      (prefix name : Text) (getenv other : Text → Text) (env : List Text)
      → ((n : Text) → is_key_allowed windows to_upper n ≡ true → getenv n ≡ other n)
      → (get_secret windows to_upper prefix getenv name
          ≡ get_secret windows to_upper prefix other name)
        × (bulk_get_secret windows to_upper prefix (keep is_public env)
            ≡ bulk_get_secret windows to_upper prefix env)
  unfolding bulk_get_secret
  forbidden_unseen prefix name getenv other env h =
      (get_secret-getenv prefix name getenv other h, add_variables-keep prefix env [])
