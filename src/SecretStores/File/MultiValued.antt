-- ===== src/SecretStores/File/MultiValued.antt =====
-- secretstores/local/file/filestore.go: what GetSecret answers when the file is multi-valued.
use dapr_components_contrib.Prelude.{
  Text, text_eq, text_eq_iff, Option, none, some, List, [], ◌∷◌, ◌++◌, if◌then◌else◌, true, false,
  ◌≡◌, refl, ap, sym, ◌∙◌, subst, Bool-cases, inl, inr,
}
use mathlib.Core.List.{append_assoc, append-nil}
use dapr_components_contrib.Dict.{Dict, lookup, insert, Absent, Distinct}
use dapr_components_contrib.Dict.Laws.{lookup-insert, lookup-Absent, text_eq-sym}
use dapr_components_contrib.State.Query.{
  Json, null, boolean, number, string, array, object, Fields, no_fields, field,
}
use dapr_components_contrib.SecretStores.File.{
  Visiting, visit_json_object, Secret, one, LocalSecretStore, visit_secrets, load_multi_valued,
  data_of, get_secret,
}
use dapr_components_contrib.SecretStores.File.Leaves.{add_all, leaves_of, visit_object_lem}
use dapr_components_contrib.SecretStores.File.Reading.{answered, get_secret_lem, insert-Absent}

-- The first value of a name in an object
abbrev pub find : Text → Fields → Option Json
find name no_fields = none
find name (field k v rest) = if text_eq k name then some v else find name rest

-- No name comes twice.
abbrev pub DifferentNames : Fields → Type 0
DifferentNames no_fields = Unit
DifferentNames (field k v rest) = (find k rest ≡ none) × DifferentNames rest

Absent-there :
    (i : Text) (m : Dict Text) (k t : Text) (rest : Dict Text)
    → Absent i (m ++ (k, t) ∷ rest)
    → text_eq k i ≡ false
Absent-there i [] k t rest h = h.0
Absent-there i ((j, w) ∷ m) k t rest h = Absent-there i m k t rest h.1

Distinct-here :
    (m : Dict Text) (k t : Text) (rest : Dict Text) → Distinct (m ++ (k, t) ∷ rest) → Absent k m
Distinct-here [] k t rest d = tt
Distinct-here ((i, w) ∷ m) k t rest d =
    (text_eq-sym k i (Absent-there i m k t rest d.0), Distinct-here m k t rest d.1)

add_all-none : (a m : Dict Text) → Distinct (m ++ a) → add_all a m ≡ (m ++ a, none)
unfolding add_all
add_all-none [] m d = ap (λ z. (z, none)) (sym (append-nil m))
add_all-none ((k, t) ∷ a) m d =
    let here = Distinct-here m k t a d in
    let there = subst Distinct (sym (append_assoc m ((k, t) ∷ []) a)) d in
    rw (lookup-Absent k m here, add_all, insert-Absent k t m here)
      (add_all-none a (m ++ (k, t) ∷ []) there
        ∙ ap (λ z. (z, none)) (append_assoc m ((k, t) ∷ []) a))

module _ (sep : Text) (show_float : Text → Text) where
  -- In every object of the file the joined paths of its primitive values are different.
  abbrev pub DifferentPaths : Fields → Type 0
  DifferentPaths no_fields = Unit
  DifferentPaths (field k (object fs) rest) =
      Distinct (leaves_of sep show_float [] fs) × DifferentPaths rest
  DifferentPaths (field k null rest) = DifferentPaths rest
  DifferentPaths (field k (boolean b) rest) = DifferentPaths rest
  DifferentPaths (field k (number n) rest) = DifferentPaths rest
  DifferentPaths (field k (string s) rest) = DifferentPaths rest
  DifferentPaths (field k (array js) rest) = DifferentPaths rest

  -- what GetSecret answers for a value of the file: an object as its primitive values, and a string as
  -- itself; other values are left out
  abbrev pub secret_of : Text → Option Json → Option (Dict Text)
  secret_of name none = none
  secret_of name (some (object fs)) = some (leaves_of sep show_float [] fs)
  secret_of name (some (string s)) = some ((name, s) ∷ [])
  secret_of name (some null) = none
  secret_of name (some (boolean b)) = none
  secret_of name (some (number n)) = none
  secret_of name (some (array js)) = none

  abbrev pick : Option (Dict Text) → Option (Dict Text) → Option (Dict Text)
  pick (some d) other = some d
  pick none other = other

  find-same :
      (k name : Text) (rest : Fields)
      → text_eq k name ≡ true
      → find k rest ≡ none
      → find name rest ≡ none
  find-same k name rest e h = subst (λ z. find z rest ≡ none) ((text_eq_iff k name).0 e) h

  skipped :
      (name k : Text) (v : Json) (rest : Fields) (other : Option (Dict Text))
      → find k rest ≡ none
      → secret_of name (some v) ≡ none
      → pick (secret_of name (find name rest)) other
        ≡ pick (secret_of name (find name (field k v rest))) other
  skipped name k v rest other h n = elim (Bool-cases (text_eq k name)) [
    | inl e ↦ rw (e, n, find-same k name rest e h) refl
    | inr e ↦ rw e refl
  ]

  stored :
      (name k : Text) (v : Json) (rest : Fields) (s : Secret) (m : Dict Secret)
      → find k rest ≡ none
      → secret_of name (some v) ≡ some (data_of name s)
      → pick (secret_of name (find name rest)) (answered name (lookup name (insert k s m)))
        ≡ pick (secret_of name (find name (field k v rest))) (answered name (lookup name m))
  stored name k v rest s m h n = elim (Bool-cases (text_eq k name)) [
    | inl e ↦ rw (lookup-insert k name s m, e, n, find-same k name rest e h) refl
    | inr e ↦ rw (lookup-insert k name s m, e) refl
  ]

  abbrev entered : List Text × Text → Visiting
  entered at = record { curren_context = at.0; current_path = at.1; secrets = [] }

  visited_object :
      (fs : Fields) (at : List Text × Text)
      → at.0 ≡ []
      → Distinct (leaves_of sep show_float [] fs)
      → ((visit_json_object sep show_float fs (entered at)).0.curren_context ≡ [])
        × ((visit_json_object sep show_float fs (entered at)).0.secrets
            ≡ leaves_of sep show_float [] fs)
  visited_object fs at e d =
      let v = visit_object_lem sep show_float fs [] (entered at) e in
      let all = v.0 ∙ add_all-none (leaves_of sep show_float [] fs) [] d in
      (v.1 (ap (λ r. r.1) all) ∙ e, ap (λ r. r.0) all)

  visit_secrets_lem :
      (name : Text) (file : Fields) (at : List Text × Text) (m : Dict Secret)
      → at.0 ≡ []
      → DifferentNames file
      → DifferentPaths file
      → answered name (lookup name (visit_secrets show_float sep file at m).1)
        ≡ pick (secret_of name (find name file)) (answered name (lookup name m))
  unfolding visit_secrets
  visit_secrets_lem name no_fields at m e d h = refl
  visit_secrets_lem name (field k null rest) at m e d h =
      visit_secrets_lem name rest at m e d.1 h ∙ skipped name k null rest _ d.0 refl
  visit_secrets_lem name (field k (boolean b) rest) at m e d h =
      visit_secrets_lem name rest at m e d.1 h ∙ skipped name k (boolean b) rest _ d.0 refl
  visit_secrets_lem name (field k (number n) rest) at m e d h =
      visit_secrets_lem name rest at m e d.1 h ∙ skipped name k (number n) rest _ d.0 refl
  visit_secrets_lem name (field k (array js) rest) at m e d h =
      visit_secrets_lem name rest at m e d.1 h ∙ skipped name k (array js) rest _ d.0 refl
  visit_secrets_lem name (field k (string s) rest) at m e d h =
      visit_secrets_lem name rest at (insert k (one s) m) e d.1 h
      ∙ stored name k (string s) rest (one s) m d.0 refl
  visit_secrets_lem name (field k (object fs) rest) at m e d h =
      let (context, found) = visited_object fs at e h.0 in
      visit_secrets_lem name rest _ _ context d.1 h.1
      ∙ stored name k (object fs) rest _ m d.0 (ap some (sym found))

  -- A store whose file is multi-valued answers for a name with the value that the file has for it: the
  -- primitive values of an object under their joined paths, or a string under its own name. No two
  -- names of the file are the same, and no two paths in one of its objects.
  pub get_secret-load_multi_valued :
      (name : Text) (file : Fields) (j : LocalSecretStore)
      → j.curren_context ≡ []
      → DifferentNames file
      → DifferentPaths file
      → get_secret name (load_multi_valued show_float sep file j) ≡ secret_of name (find name file)
  unfolding load_multi_valued lookup
  get_secret-load_multi_valued name file j e d h =
      get_secret_lem name _
      ∙ (visit_secrets_lem name file (j.curren_context, j.current_path) [] e d h
          ∙ nothing (secret_of name (find name file)))
    where
      nothing : (o : Option (Dict Text)) → pick o none ≡ o
      nothing none = refl
      nothing (some x) = refl
