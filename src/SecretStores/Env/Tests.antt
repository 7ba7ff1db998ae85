-- ===== src/SecretStores/Env/Tests.antt =====
-- Runs and witnesses for the secret store over the environment.
use dapr_components_contrib.Prelude.{
  Text, codes, text_eq, some, List, [], ◌∷◌, ◌++◌, map, keep, true, false, ◌≡◌, refl, if◌then◌else◌,
  leb, ◌-◌, ◌&&◌,
}
use dapr_components_contrib.Dict.{Dict, lookup, insert, Distinct}
use dapr_components_contrib.SecretStores.Env.{
  split_variable, is_key_allowed, get_secret, is_skipped, bulk_get_secret, add_variable,
}
use dapr_components_contrib.SecretStores.Env.Access.{is_public, forbidden_unseen}
use dapr_components_contrib.SecretStores.Env.Names.{with_value, is_listed, value_of, answered}
use dapr_components_contrib.SecretStores.Env.Agreement.{bulk_get_secret-get_secret}

-- strings.ToUpper on ASCII
abbrev upper : Text → Text
upper [] = []
upper (c ∷ s) = (if leb b'a' c && leb c b'z' then c - 32 else c) ∷ upper s

abbrev variables : Dict Text
variables =
    (codes "X_DB", codes "secret")
    ∷ (codes "dapr_token", codes "t")
    ∷ (codes "HOME", codes "/=/")
    ∷ []

abbrev env : List Text
env = codes "X_DB=secret" ∷ codes "dapr_token=t" ∷ codes "HOME=/=/" ∷ []

abbrev getenv : Text → Text
getenv n = value_of (lookup n variables)

-- the environment of a process without the token of the sidecar
abbrev other : Text → Text
other n = if is_key_allowed false upper n then value_of (lookup n variables) else codes "z"

env_read : map split_variable env ≡ map with_value variables
unfolding split_variable
env_read = refl

listed :
    bulk_get_secret false upper (codes "X_") env
    ≡ some ((codes "DB", (codes "DB", codes "secret") ∷ []) ∷ [])
unfolding bulk_get_secret add_variable is_skipped is_key_allowed split_variable insert
listed = refl

token_hidden : get_secret false upper [] getenv (codes "dapr_token") ≡ (codes "dapr_token", []) ∷ []
unfolding get_secret is_key_allowed
token_hidden = refl

all_different : Distinct variables
unfolding text_eq
all_different = ((refl, (refl, tt)), ((refl, tt), (tt, tt)))

agree : (n : Text) → is_key_allowed false upper n ≡ true → getenv n ≡ other n
agree n h = rw h refl

forbidden_unseen_example :
    (get_secret false upper (codes "X_") getenv (codes "DB")
      ≡ get_secret false upper (codes "X_") other (codes "DB"))
    × (bulk_get_secret false upper (codes "X_") (keep (is_public false upper) env)
        ≡ bulk_get_secret false upper (codes "X_") env)
forbidden_unseen_example =
    forbidden_unseen false upper (codes "X_") (codes "DB") getenv other env agree

getenv_reads : (n : Text) → getenv n ≡ value_of (lookup n variables)
getenv_reads n = refl

bulk_get_secret-get_secret_example :
    (all : Dict (Dict Text)) × (bulk_get_secret false upper (codes "X_") env ≡ some all)
    × (lookup (codes "DB") all
        ≡ answered
            (is_listed upper (codes "X_") (codes "DB"))
            (lookup (codes "X_" ++ codes "DB") variables)
            (get_secret false upper (codes "X_") getenv (codes "DB")))
bulk_get_secret-get_secret_example =
    bulk_get_secret-get_secret upper (codes "X_") (codes "DB") env variables getenv env_read
      all_different getenv_reads
