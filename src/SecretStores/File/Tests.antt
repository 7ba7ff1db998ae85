-- ===== src/SecretStores/File/Tests.antt =====
-- Runs and witnesses for the secret store in a file.
use dapr_components_contrib.Prelude.{
  Text, codes, join, text_eq, some, [], ◌∷◌, Bool, true, false, ◌≡◌, refl, ◌⊎◌, inl,
}
use dapr_components_contrib.Dict.{Dict, lookup}
use dapr_components_contrib.Strconv.{format_uint}
use dapr_components_contrib.State.Query.{
  number, string, array, object, no_values, value, Fields, no_fields, field,
}
use dapr_components_contrib.SecretStores.File.{
  new_local_secret_store, FileMetadata, missing_file, failed, init, load, get_secret,
  bulk_get_secret,
}
use dapr_components_contrib.SecretStores.File.Leaves.{leaves_of}
use dapr_components_contrib.SecretStores.File.Reading.{Cut, single, get_secret-load}
use dapr_components_contrib.SecretStores.File.Bulk.{bulk_get_secret-load}
use dapr_components_contrib.SecretStores.File.MultiValued.{DifferentNames, DifferentPaths}

abbrev as_written : Text → Text
as_written n = n

abbrev meta : Bool → FileMetadata
meta b = record { secrets_file = codes "secrets.json"; nested_separator = []; multi_valued = b }

-- {"db": {"user": "ann", "ports": [1, 2]}, "top": "s"}
abbrev file : Fields
file =
    field (codes "db")
      (object (
        field (codes "user") (string (codes "ann")) (
          field (codes "ports")
            (array (value (number (codes "1")) (value (number (codes "2")) no_values))) no_fields)))
      (field (codes "top") (string (codes "s")) no_fields)

abbrev no_file : Text → Fields ⊎ Text
no_file name = inl file

nested_value :
    get_secret (codes "db:user") (load as_written (meta false) file new_local_secret_store)
    ≡ some ((codes "db:user", codes "ann") ∷ [])
unfolding get_secret load format_uint join
nested_value = refl

-- A number is stored as fmt prints it for %s.
number_text :
    get_secret (codes "db:ports:1") (load as_written (meta false) file new_local_secret_store)
    ≡ some ((codes "db:ports:1", codes "%!s(float64=2)") ∷ [])
unfolding get_secret load format_uint join
number_text = refl

no_file_name :
    init as_written no_file
      (record { secrets_file = []; nested_separator = []; multi_valued = true })
      new_local_secret_store
    ≡ failed missing_file
unfolding init
no_file_name = refl

-- {"a": {"x:y": "1", "x": {"y": "2"}}, "b": {"p": "q"}}
abbrev clash : Fields
clash =
    field (codes "a")
      (object (
        field (codes "x:y") (string (codes "1")) (
          field (codes "x") (object (field (codes "y") (string (codes "2")) no_fields)) no_fields)))
      (field (codes "b") (object (field (codes "p") (string (codes "q")) no_fields)) no_fields)

-- After a name that comes twice the secrets behind it have the path of that name before their own.
clash_leaks :
    get_secret (codes "b") (load as_written (meta true) clash new_local_secret_store)
    ≡ some ((codes "x:y:p", codes "q") ∷ [])
unfolding get_secret load join
clash_leaks = refl

get_secret-load_example :
    (kept : Dict Text) × Cut (leaves_of (codes ":") as_written [] file) kept
    × ((name : Text)
        → get_secret name (load as_written (meta false) file new_local_secret_store)
          ≡ single name (lookup name kept))
unfolding text_eq
get_secret-load_example =
    get_secret-load as_written (meta false) file new_local_secret_store refl refl

file_names : DifferentNames file
unfolding text_eq
file_names = (refl, (refl, tt))

file_paths : DifferentPaths (codes ":") as_written file
unfolding leaves_of join text_eq format_uint
file_paths = (((refl, (refl, tt)), ((refl, tt), (tt, tt))), tt)

bulk_get_secret-load_example :
    lookup (codes "top") (bulk_get_secret (load as_written (meta true) file new_local_secret_store))
    ≡ get_secret (codes "top") (load as_written (meta true) file new_local_secret_store)
bulk_get_secret-load_example =
    bulk_get_secret-load as_written (meta true) file new_local_secret_store (codes "top")
