-- ===== src/SecretStores/File.antt =====
-- secretstores/local/file/filestore.go: the secret store in a JSON file, whose nested values have
-- their path as a name.
pub mod Leaves
pub mod Reading
pub mod Bulk
pub mod MultiValued
mod Tests
use dapr_components_contrib.Prelude.{
  ℕ, suc, ◌-◌, Text, codes, text_eq, join, Option, none, some, List, [], ◌∷◌, ◌++◌, length, take,
  Bool, true, false, if◌then◌else◌, map, ◌⊎◌, inl, inr,
}
use dapr_components_contrib.Dict.{Dict, lookup, insert}
use dapr_components_contrib.Strconv.{format_uint}
use dapr_components_contrib.State.Query.{
  Json, null, boolean, number, string, array, object, Jsons, no_values, value, Fields, no_fields,
  field,
}

-- the part of localSecretStore that the visit of a file uses; a visit stores only strings
pub record Visiting : Type 0 where
  pub curren_context : List Text
  pub current_path : Text
  pub secrets : Dict Text

-- the errors of a visit: a JSON value is never of the other kind, "couldn't parse property"
pub data VisitError : Type 0 where
  duplicate_key : VisitError

-- fmt.Sprintf("%s", v) of what JSON has beside arrays and objects; `show_float` prints a float64 as
-- %v does
module _ (show_float : Text → Text) where
  unfoldable pub primitive_text : Json → Text
  primitive_text null = codes "%!s(<nil>)"
  primitive_text (boolean true) = codes "%!s(bool=true)"
  primitive_text (boolean false) = codes "%!s(bool=false)"
  primitive_text (number n) = codes "%!s(float64=" ++ show_float n ++ codes ")"
  primitive_text (string s) = s
  primitive_text (array js) = []
  primitive_text (object fs) = []

-- pop
unfoldable pub pop : List Text → List Text
pop values = take (length values - 1) values

-- visitPrimitive
unfoldable pub visit_primitive : Text → Visiting → Visiting × Option VisitError
unfolding lookup insert
visit_primitive context s = elim (lookup s.current_path s.secrets) [
  | some old ↦ (s, some duplicate_key)
  | none ↦ (record s { secrets = insert s.current_path context s.secrets }, none)
]

module _ (nested_separator : Text) where
  abbrev pub combine : List Text → Text
  combine values = join values nested_separator

  -- enterContext
  unfoldable pub enter_context : Text → Visiting → Visiting
  enter_context context s = record s {
    curren_context = s.curren_context ++ context ∷ [];
    current_path = combine (s.curren_context ++ context ∷ []);
  }

  -- exitContext
  unfoldable pub exit_context : Visiting → Visiting
  unfolding pop
  exit_context s = record s {
    curren_context = pop s.curren_context;
    current_path = combine (pop s.curren_context);
  }

  -- an element of a loop of visitJSONObject or visitArray, and those behind it
  unfoldable pub visit_next :
      Visiting × Option VisitError
      → (Visiting → Visiting × Option VisitError)
      → Visiting × Option VisitError
  unfolding exit_context
  visit_next (s, some e) rest = (s, some e)
  visit_next (s, none) rest = rest (exit_context s)

  module _ (show_float : Text → Text) where
    unfoldable mutual
      unfolding enter_context visit_primitive visit_next primitive_text

      -- visitProperty
      pub visit_property : Json → Visiting → Visiting × Option VisitError
      visit_property null s = visit_primitive (primitive_text show_float null) s
      visit_property (boolean b) s = visit_primitive (primitive_text show_float (boolean b)) s
      visit_property (number n) s = visit_primitive (primitive_text show_float (number n)) s
      visit_property (string t) s = visit_primitive (primitive_text show_float (string t)) s
      visit_property (array js) s = visit_array 0 js s
      visit_property (object fs) s = visit_json_object fs s

      -- visitJSONObject
      pub visit_json_object : Fields → Visiting → Visiting × Option VisitError
      visit_json_object no_fields s = (s, none)
      visit_json_object (field key element rest) s =
          visit_next (visit_property element (enter_context key s)) (visit_json_object rest)

      -- visitArray, from an index on
      pub visit_array : ℕ → Jsons → Visiting → Visiting × Option VisitError
      visit_array i no_values s = (s, none)
      visit_array i (value element rest) s =
          visit_next (visit_property element (enter_context (format_uint i) s))
            (visit_array (suc i) rest)

-- a value of the map of secrets: a string, or a map of strings of its own
pub data Secret : Type 0 where
  one : Text → Secret
  many : Dict Text → Secret

pub record LocalSecretStore : Type 0 where
  pub nested_separator : Text
  pub curren_context : List Text
  pub current_path : Text
  pub secrets : Dict Secret
  pub multi_valued : Bool

abbrev pub new_local_secret_store : LocalSecretStore
new_local_secret_store = record {
  nested_separator = [];
  curren_context = [];
  current_path = [];
  secrets = [];
  multi_valued = false;
}

-- localSecretStoreMetaData
pub record FileMetadata : Type 0 where
  pub secrets_file : Text
  pub nested_separator : Text
  pub multi_valued : Bool

-- the errors of Init: the one of its own, and what opening and reading the file gives
pub data InitError : Type 0 where
  missing_file : InitError
  file_error : Text → InitError

pub data Initialised : Type 0 where
  ready : LocalSecretStore → Initialised
  failed : InitError → Initialised

abbrev pub separator_of : FileMetadata → Text
separator_of meta =
    if text_eq meta.nested_separator (codes "") then codes ":" else meta.nested_separator

abbrev pub as_secret : Text × Text → Text × Secret
as_secret (k, v) = (k, one v)

module _ (show_float : Text → Text) where
  -- the loop of Init over the file when it is multi-valued, with the context that each visit leaves
  unfoldable pub visit_secrets :
      Text → Fields → List Text × Text → Dict Secret → (List Text × Text) × Dict Secret
  unfolding visit_property insert
  visit_secrets sep no_fields at all_secrets = (at, all_secrets)
  visit_secrets sep (field k (string v) rest) at all_secrets =
      visit_secrets sep rest at (insert k (one v) all_secrets)
  visit_secrets sep (field k (object fs) rest) at all_secrets =
      let (s, e) =
        visit_json_object sep show_float fs
          (record { curren_context = at.0; current_path = at.1; secrets = [] }) in
      visit_secrets sep rest (s.curren_context, s.current_path)
        (insert k (many s.secrets) all_secrets)
  visit_secrets sep (field k null rest) at all_secrets = visit_secrets sep rest at all_secrets
  visit_secrets sep (field k (boolean b) rest) at all_secrets =
      visit_secrets sep rest at all_secrets
  visit_secrets sep (field k (number n) rest) at all_secrets = visit_secrets sep rest at all_secrets
  visit_secrets sep (field k (array js) rest) at all_secrets = visit_secrets sep rest at all_secrets

  -- the two branches of Init
  unfoldable pub load_multi_valued : Text → Fields → LocalSecretStore → LocalSecretStore
  unfolding visit_secrets
  load_multi_valued sep json_config j =
      let (at, all_secrets) = visit_secrets sep json_config (j.curren_context, j.current_path) [] in
      record {
        nested_separator = sep;
        curren_context = at.0;
        current_path = at.1;
        secrets = all_secrets;
        multi_valued = true;
      }

  unfoldable pub load_single_valued : Text → Fields → LocalSecretStore → LocalSecretStore
  unfolding visit_property
  load_single_valued sep json_config j =
      let (s, e) = visit_json_object sep show_float json_config (record {
        curren_context = j.curren_context;
        current_path = j.current_path;
        secrets = [];
      }) in
      record {
        nested_separator = sep;
        curren_context = s.curren_context;
        current_path = s.current_path;
        secrets = map as_secret s.secrets;
        multi_valued = false;
      }

  -- Init, after the metadata is decoded and the file is read
  unfoldable pub load : FileMetadata → Fields → LocalSecretStore → LocalSecretStore
  unfolding load_multi_valued load_single_valued text_eq
  load meta json_config j =
      if meta.multi_valued
      then load_multi_valued (separator_of meta) json_config j
      else load_single_valued (separator_of meta) json_config j

  -- Init: `read_local_file` opens the file and reads its JSON
  unfoldable pub init : (Text → Fields ⊎ Text) → FileMetadata → LocalSecretStore → Initialised
  unfolding load
  init read_local_file meta j =
      if text_eq meta.secrets_file (codes "")
      then failed missing_file
      else elim (read_local_file meta.secrets_file) [
        | inl json_config ↦ ready (load meta json_config j)
        | inr e ↦ failed (file_error e)
      ]

-- the switch on the type of a secret
abbrev pub data_of : Text → Secret → Dict Text
data_of name (one v) = (name, v) ∷ []
data_of name (many m) = m

-- GetSecret: `none` is the error that the secret is not found
unfoldable pub get_secret : Text → LocalSecretStore → Option (Dict Text)
unfolding lookup
get_secret name j = elim (lookup name j.secrets) [ none ↦ none | some s ↦ some (data_of name s) ]

-- the loop of BulkGetSecret
unfoldable pub all_data : Dict Secret → Dict (Dict Text) → Dict (Dict Text)
unfolding insert
all_data [] r = r
all_data ((k, v) ∷ rest) r = all_data rest (insert k (data_of k v) r)

-- BulkGetSecret
unfoldable pub bulk_get_secret : LocalSecretStore → Dict (Dict Text)
unfolding all_data
bulk_get_secret j = all_data j.secrets []
