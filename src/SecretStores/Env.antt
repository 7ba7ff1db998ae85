-- ===== src/SecretStores/Env.antt =====
-- secretstores/local/env/envstore.go: the secret store over the variables of the environment. A text
-- stands for its bytes here, since the code measures and cuts names.
pub mod Access
pub mod Agreement
pub mod Names
mod Tests
use dapr_components_contrib.Prelude.{
  ℕ, Text, codes, text_eq, has_prefix, Option, none, some, List, [], ◌∷◌, ◌++◌, length, take, drop,
  Bool, true, false, not, ◌&&◌, ◌||◌, leb, ltb, ◌==◌, if◌then◌else◌,
}
use dapr_components_contrib.Dict.{Dict, insert}

-- strings.SplitN(element, "=", 2); `none` stands for a slice of one part
unfoldable pub split_variable : Text → Text × Option Text
split_variable [] = ([], none)
split_variable (c ∷ s) =
    let rest = split_variable s in if c == b'=' then ([], some s) else (c ∷ rest.0, rest.1)

-- the rest of a loop, unless its body has panicked
unfoldable pub unless_panic {ℓ} : {A : Type ℓ} → Option A → (A → Option A) → Option A
unless_panic none rest = none
unless_panic (some r) rest = rest r

-- `windows` is runtime.GOOS == "windows", and `to_upper` is strings.ToUpper.
module _ (windows : Bool) (to_upper : Text → Text) where
  -- isKeyAllowed
  unfoldable pub is_key_allowed : Text → Bool
  unfolding text_eq has_prefix
  is_key_allowed key =
      if text_eq (to_upper key) (codes "APP_API_TOKEN")
      then false
      else if has_prefix (to_upper key) (codes "DAPR_")
      then false
      else true

  -- GetSecret, in a store with a prefix; `getenv` is os.Getenv
  unfoldable pub get_secret : Text → (Text → Text) → Text → Dict Text
  get_secret prefix getenv name =
      (name, if is_key_allowed (prefix ++ name) then getenv (prefix ++ name) else []) ∷ []

  -- the prefix that BulkGetSecret compares with
  unfoldable pub compared_prefix : Text → Text
  compared_prefix prefix =
      if windows && not (leb (length prefix) 0) then to_upper prefix else prefix

  -- the condition under which the loop goes on to the next variable, for the prefix that is compared
  unfoldable pub is_skipped : Text → Text → Bool
  unfolding text_eq
  is_skipped prefix key =
      not (text_eq prefix (codes ""))
      && (leb (length key) (length prefix)
          || (windows && not (text_eq (to_upper (take (length prefix) key)) prefix))
          || (not windows && not (text_eq (take (length prefix) key) prefix)))

  -- the body of the loop; `none` is the panic of envVariable[1], or of key[lp:] where the upper-case
  -- prefix is shorter than the prefix
  unfoldable pub add_variable :
      Text → Text × Option Text → Dict (Dict Text) → Option (Dict (Dict Text))
  unfolding compared_prefix
  add_variable prefix (key, env_value) r =
      if is_skipped (compared_prefix prefix) key
      then some r
      else if not (is_key_allowed key)
      then some r
      else elim env_value [
        | none ↦ none
        | some v ↦
            if ltb (length key) (length prefix)
            then none
            else some (insert (drop (length prefix) key) ((drop (length prefix) key, v) ∷ []) r)
      ]

  -- BulkGetSecret, from a point of the loop on
  unfoldable pub add_variables : Text → List Text → Dict (Dict Text) → Option (Dict (Dict Text))
  unfolding unless_panic
  add_variables prefix [] r = some r
  add_variables prefix (element ∷ env) r =
      unless_panic (add_variable prefix (split_variable element) r) (add_variables prefix env)

  -- BulkGetSecret; `env` is os.Environ()
  unfoldable pub bulk_get_secret : Text → List Text → Option (Dict (Dict Text))
  unfolding add_variables
  bulk_get_secret prefix env = add_variables prefix env []
