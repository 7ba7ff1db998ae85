-- ===== src/SecretStores/File/Reading.antt =====
-- secretstores/local/file/filestore.go: what GetSecret and BulkGetSecret answer after Init.
use dapr_components_contrib.Prelude.{
  Text, text_eq, Option, none, some, [], ◌∷◌, ◌++◌, map, false, ◌≡◌, refl, ap, sym, ◌∙◌, subst,
  Option-cases, Bool-cases, ◌⊎◌, inl, inr,
}
use mathlib.Core.List.{append_assoc, append-nil}
use dapr_components_contrib.Dict.{Dict, lookup, insert, Absent, Distinct}
use dapr_components_contrib.Dict.Laws.{Distinct-insert, Absent-lookup}
use dapr_components_contrib.State.Query.{Fields}
use dapr_components_contrib.SecretStores.File.{
  Secret, one, LocalSecretStore, FileMetadata, separator_of, as_secret, load, data_of, get_secret,
}
use dapr_components_contrib.SecretStores.File.Leaves.{add_all, leaves_of, visit_object_lem}

pub insert-Absent {ℓ} :
    {V : Type ℓ} (k : Text) (v : V) (m : Dict V) → Absent k m → insert k v m ≡ m ++ (k, v) ∷ []
unfolding insert
insert-Absent k v [] h = refl
insert-Absent k v ((i, w) ∷ m) h = rw h.0 (ap (◌∷◌ (i, w)) (insert-Absent k v m h.1))

-- `kept` is all of `found`, whose keys are different, or what comes before the first key that is
-- there a second time.
abbrev pub Cut : Dict Text → Dict Text → Type 0
Cut found kept =
    (Distinct found × (kept ≡ found))
    ⊎ ((k : Text) × (t old : Text) × (rest : Dict Text) × (found ≡ kept ++ (k, t) ∷ rest)
        × (lookup k kept ≡ some old))

add_all-Cut : (a m : Dict Text) → Distinct m → Cut (m ++ a) (add_all a m).0
unfolding add_all
add_all-Cut [] m d = inl (subst Distinct (sym (append-nil m)) d, sym (append-nil m))
add_all-Cut ((k, t) ∷ a) m d = elim (Option-cases (lookup k m)) [
  | inl e ↦
      let p = insert-Absent k t m (Absent-lookup k m e) in
      rw (e, add_all)
        (subst (λ z. Cut z (add_all a (insert k t m)).0)
          (ap (λ z. z ++ a) p ∙ append_assoc m ((k, t) ∷ []) a)
          (add_all-Cut a (insert k t m) (Distinct-insert k t m d)))
  | inr (old, e) ↦ rw (e, add_all) (inr (k, t, old, a, refl, e))
]

pub add_all-Distinct : (a m : Dict Text) → Distinct m → Distinct (add_all a m).0
unfolding add_all
add_all-Distinct [] m d = d
add_all-Distinct ((k, t) ∷ a) m d = elim (Option-cases (lookup k m)) [
  | inl e ↦ rw (e, add_all) (add_all-Distinct a (insert k t m) (Distinct-insert k t m d))
  | inr (old, e) ↦ rw (e, add_all) d
]

abbrev one_of : Option Text → Option Secret
one_of none = none
one_of (some t) = some (one t)

lookup-as_secret :
    (name : Text) (m : Dict Text) → lookup name (map as_secret m) ≡ one_of (lookup name m)
unfolding lookup
lookup-as_secret name [] = refl
lookup-as_secret name ((k, v) ∷ m) = elim (Bool-cases (text_eq k name)) [
  | inl e ↦ rw e refl
  | inr e ↦ rw e (lookup-as_secret name m)
]

-- what GetSecret answers for a secret that is one string
abbrev pub single : Text → Option Text → Option (Dict Text)
single name none = none
single name (some t) = some ((name, t) ∷ [])

abbrev pub answered : Text → Option Secret → Option (Dict Text)
answered name none = none
answered name (some s) = some (data_of name s)

pub get_secret_lem :
    (name : Text) (j : LocalSecretStore) → get_secret name j ≡ answered name (lookup name j.secrets)
unfolding get_secret
get_secret_lem name j = elim (Option-cases (lookup name j.secrets)) [
  | inl e ↦ rw (e, get_secret) refl
  | inr (s, e) ↦ rw (e, get_secret) refl
]

answered-one : (name : Text) (o : Option Text) → answered name (one_of o) ≡ single name o
answered-one name none = refl
answered-one name (some t) = refl

module _ (show_float : Text → Text) where
  -- A store whose file is not multi-valued answers with the primitive values of the file under their
  -- joined paths: with all of them if these names are different, and otherwise with those before the
  -- first name that comes a second time.
  pub get_secret-load :
      (meta : FileMetadata) (file : Fields) (j : LocalSecretStore)
      → meta.multi_valued ≡ false
      → j.curren_context ≡ []
      → (kept : Dict Text) × Cut (leaves_of (separator_of meta) show_float [] file) kept
        × ((name : Text)
            → get_secret name (load show_float meta file j) ≡ single name (lookup name kept))
  unfolding load
  get_secret-load meta file j single_valued e =
      let found = leaves_of (separator_of meta) show_float [] file in
      let visited =
        (visit_object_lem (separator_of meta) show_float file []
          (record {
            curren_context = j.curren_context;
            current_path = j.current_path;
            secrets = [];
          })
          e).0 in
      (
        (add_all found []).0,
        add_all-Cut found [] tt,
        λ name. rw single_valued (
            get_secret_lem name _
            ∙ (ap (answered name)
                  (lookup-as_secret name _ ∙ ap (λ r. one_of (lookup name r.0)) visited)
                ∙ answered-one name (lookup name (add_all found []).0))),
      )
