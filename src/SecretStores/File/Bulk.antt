-- ===== src/SecretStores/File/Bulk.antt =====
-- secretstores/local/file/filestore.go: BulkGetSecret against GetSecret.
use dapr_components_contrib.Prelude.{
  Text, text_eq, text_eq_iff, Option, none, some, List, [], ◌∷◌, map, ◌≡◌, refl, ap, sym, ◌∙◌,
  subst, Bool-cases, inl, inr,
}
use dapr_components_contrib.Dict.{Dict, lookup, insert, Absent, Distinct}
use dapr_components_contrib.Dict.Laws.{lookup-insert, Distinct-insert, lookup-Absent}
use dapr_components_contrib.State.Query.{
  null, boolean, number, string, array, object, Fields, no_fields, field,
}
use dapr_components_contrib.SecretStores.File.{
  Secret, one, LocalSecretStore, FileMetadata, separator_of, visit_secrets, as_secret, load,
  data_of, get_secret, all_data, bulk_get_secret,
}
use dapr_components_contrib.SecretStores.File.Leaves.{visit_object_lem}
use dapr_components_contrib.SecretStores.File.Reading.{answered, get_secret_lem, add_all-Distinct}

abbrev answered_or : Text → Option Secret → Option (Dict Text) → Option (Dict Text)
answered_or name none other = other
answered_or name (some s) other = some (data_of name s)

-- Every map that Init builds has one entry for each key.
Distinct-as_secret : (m : Dict Text) → Distinct m → Distinct (map as_secret m)
Distinct-as_secret [] d = tt
Distinct-as_secret ((k, t) ∷ m) d = (absent k m d.0, Distinct-as_secret m d.1)
  where
    absent : (k : Text) (m : Dict Text) → Absent k m → Absent k (map as_secret m)
    absent k [] h = tt
    absent k ((j, t) ∷ m) h = (h.0, absent k m h.1)

lookup-all_data :
    (name : Text) (m : Dict Secret) (r : Dict (Dict Text))
    → Distinct m
    → lookup name (all_data m r) ≡ answered_or name (lookup name m) (lookup name r)
unfolding all_data lookup
lookup-all_data name [] r d = refl
lookup-all_data name ((k, v) ∷ m) r d =
    lookup-all_data name m (insert k (data_of k v) r) d.1
    ∙ (ap (answered_or name (lookup name m)) (lookup-insert k name (data_of k v) r)
        ∙ elim (Bool-cases (text_eq k name)) [
          | inl e ↦
              rw (e, lookup-Absent name m (subst (λ t. Absent t m) ((text_eq_iff k name).0 e) d.0))
                (ap (λ t. some (data_of t v)) ((text_eq_iff k name).0 e))
          | inr e ↦ rw e refl
        ])

bulk_get_secret_lem :
    (name : Text) (j : LocalSecretStore)
    → Distinct j.secrets
    → lookup name (bulk_get_secret j) ≡ get_secret name j
unfolding bulk_get_secret lookup
bulk_get_secret_lem name j d =
    lookup-all_data name j.secrets [] d
    ∙ (same (lookup name j.secrets) ∙ sym (get_secret_lem name j))
  where
    same : (o : Option Secret) → answered_or name o none ≡ answered name o
    same none = refl
    same (some s) = refl

module _ (show_float : Text → Text) where
  Distinct-visit_secrets :
      (sep : Text) (file : Fields) (at : List Text × Text) (m : Dict Secret)
      → Distinct m
      → Distinct (visit_secrets show_float sep file at m).1
  unfolding visit_secrets
  Distinct-visit_secrets sep no_fields at m d = d
  Distinct-visit_secrets sep (field k null rest) at m d = Distinct-visit_secrets sep rest at m d
  Distinct-visit_secrets sep (field k (boolean b) rest) at m d =
      Distinct-visit_secrets sep rest at m d
  Distinct-visit_secrets sep (field k (number n) rest) at m d =
      Distinct-visit_secrets sep rest at m d
  Distinct-visit_secrets sep (field k (array js) rest) at m d =
      Distinct-visit_secrets sep rest at m d
  Distinct-visit_secrets sep (field k (string v) rest) at m d =
      Distinct-visit_secrets sep rest at (insert k (one v) m) (Distinct-insert k (one v) m d)
  Distinct-visit_secrets sep (field k (object fs) rest) at m d =
      Distinct-visit_secrets sep rest _ (insert k _ m) (Distinct-insert k _ m d)

  Distinct-load :
      (meta : FileMetadata) (file : Fields) (j : LocalSecretStore)
      → Distinct (load show_float meta file j).secrets
  unfolding load
  Distinct-load meta file j = elim (Bool-cases meta.multi_valued) [
    | inl e ↦
        rw e
          (Distinct-visit_secrets (separator_of meta) file (j.curren_context, j.current_path) [] tt)
    | inr e ↦ rw e (
        Distinct-as_secret _ (
          subst (λ r. Distinct r.0)
            (sym
              (visit_object_lem (separator_of meta) show_float file _
                (record {
                  curren_context = j.curren_context;
                  current_path = j.current_path;
                  secrets = [];
                })
                refl).0)
            (add_all-Distinct _ [] tt)))
  ]

  -- After Init, BulkGetSecret has for each name what GetSecret answers for it, and no other name.
  pub bulk_get_secret-load :
      (meta : FileMetadata) (file : Fields) (j : LocalSecretStore) (name : Text)
      → lookup name (bulk_get_secret (load show_float meta file j))
        ≡ get_secret name (load show_float meta file j)
  bulk_get_secret-load meta file j name =
      bulk_get_secret_lem name (load show_float meta file j) (Distinct-load meta file j)
