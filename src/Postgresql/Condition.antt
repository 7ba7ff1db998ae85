-- ===== src/Postgresql/Condition.antt =====
-- The conditions that common/component/postgresql/v1/postgresql_query.go writes, as trees: the tree of
-- a filter, its text, and what it says of a row of the table.
use dapr_components_contrib.Prelude.{
  ℕ, suc, ◌+◌, ◌-◌, Text, codes, join, Option, none, some, List, [], ◌∷◌, ◌++◌, length, get_elem?,
  Bool, true, false, ◌&&◌, ◌||◌, ◌≡◌, refl,
}
use dapr_components_contrib.Strconv.{format_uint}
use dapr_components_contrib.State.Query.{
  Json, string, null, boolean, number, array, object, Jsons, no_values, value, Filter, eq, neq, gt,
  gte, lt, lte, in_, and_, or_, Filters, no_filters, filter,
}
use dapr_components_contrib.Postgresql.Visitor.{translate_field_to_filter}

pub data Comparison : Type 0 where
  equal not_equal greater greater_equal less less_equal : Comparison

pub data Connective : Type 0 where
  conjunction disjunction : Connective

-- A field is compared with the parameter at a position, counted from 1.
mutual
  pub data Condition : Type 0 where
    compare : Comparison → Text → ℕ → Condition
    group : Connective → Conditions → Condition

  pub data Conditions : Type 0 where
    no_conditions : Conditions
    condition : Condition → Conditions → Conditions

abbrev pub operator : Comparison → Text
operator equal = codes "="
operator not_equal = codes "!="
operator greater = codes ">"
operator greater_equal = codes ">="
operator less = codes "<"
operator less_equal = codes "<="

abbrev pub keyword : Connective → Text
keyword conjunction = codes "AND"
keyword disjunction = codes "OR"

unfoldable mutual
  -- the text of a condition
  pub sql : Condition → Text
  sql (compare op key i) =
      translate_field_to_filter key ++ operator op ++ codes "$" ++ format_uint i
  sql (group c cs) =
      codes "(" ++ join (sql_each cs) (codes " " ++ keyword c ++ codes " ") ++ codes ")"

  pub sql_each : Conditions → List Text
  sql_each no_conditions = []
  sql_each (condition c cs) = sql c ∷ sql_each cs

module _ (sprint : Json → Text) where
  unfoldable pub texts : Jsons → List Text
  texts no_values = []
  texts (value v vs) = sprint v ∷ texts vs

  unfoldable mutual
    unfolding texts

    -- the values of a filter, from left to right
    pub values : Filter → List Text
    values (eq k v) = sprint v ∷ []
    values (neq k v) = sprint v ∷ []
    values (gt k v) = sprint v ∷ []
    values (gte k v) = sprint v ∷ []
    values (lt k v) = sprint v ∷ []
    values (lte k v) = sprint v ∷ []
    values (in_ k vs) = texts vs
    values (and_ fs) = values_each fs
    values (or_ fs) = values_each fs

    pub values_each : Filters → List Text
    values_each no_filters = []
    values_each (filter f fs) = values f ++ values_each fs

  unfoldable pub alternatives : Text → Jsons → ℕ → Conditions
  alternatives k no_values n = no_conditions
  alternatives k (value v vs) n = condition (compare equal k (suc n)) (alternatives k vs (suc n))

  unfoldable mutual
    unfolding alternatives values

    -- the condition of a filter, when `n` parameters come before its own
    pub translate : Filter → ℕ → Condition
    translate (eq k v) n = compare equal k (suc n)
    translate (neq k v) n = compare not_equal k (suc n)
    translate (gt k v) n = compare greater k (suc n)
    translate (gte k v) n = compare greater_equal k (suc n)
    translate (lt k v) n = compare less k (suc n)
    translate (lte k v) n = compare less_equal k (suc n)
    translate (in_ k vs) n = group disjunction (alternatives k vs n)
    translate (and_ fs) n = group conjunction (translate_each fs n)
    translate (or_ fs) n = group disjunction (translate_each fs n)

    pub translate_each : Filters → ℕ → Conditions
    translate_each no_filters n = no_conditions
    translate_each (filter f fs) n =
        condition (translate f n) (translate_each fs (n + length (values f)))

-- Not a string, which only EQ, NEQ and IN compare
unfoldable pub ordered : Json → Bool
ordered (string s) = false
ordered null = true
ordered (boolean b) = true
ordered (number n) = true
ordered (array js) = true
ordered (object fs) = true

unfoldable pub non_empty : Jsons → Bool
non_empty no_values = false
non_empty (value v vs) = true

unfoldable mutual
  unfolding ordered non_empty

  -- No order is asked of a string, and no IN is empty, at any depth.
  pub supported : Filter → Bool
  supported (eq k v) = true
  supported (neq k v) = true
  supported (gt k v) = ordered v
  supported (gte k v) = ordered v
  supported (lt k v) = ordered v
  supported (lte k v) = ordered v
  supported (in_ k vs) = non_empty vs
  supported (and_ fs) = supported_each fs
  supported (or_ fs) = supported_each fs

  pub supported_each : Filters → Bool
  supported_each no_filters = true
  supported_each (filter f fs) = supported f && supported_each fs

-- `holds op key text` is whether the comparison is true of the row at hand: false where the field is
-- missing, whose comparison is NULL, since AND, OR and WHERE then give the same rows.
module _ (holds : Comparison → Text → Text → Bool) where
  abbrev pub compare_with : Comparison → Text → Option Text → Bool
  compare_with op key none = false
  compare_with op key (some v) = holds op key v

  unfoldable mutual
    -- a condition's value, with the parameters of the statement
    pub evaluate : List Text → Condition → Bool
    evaluate params (compare op key i) = compare_with op key (get_elem? params (i - 1))
    evaluate params (group conjunction cs) = evaluate_all params cs
    evaluate params (group disjunction cs) = evaluate_any params cs

    pub evaluate_all : List Text → Conditions → Bool
    evaluate_all params no_conditions = true
    evaluate_all params (condition c cs) = evaluate params c && evaluate_all params cs

    pub evaluate_any : List Text → Conditions → Bool
    evaluate_any params no_conditions = false
    evaluate_any params (condition c cs) = evaluate params c || evaluate_any params cs

  module _ (sprint : Json → Text) where
    unfoldable pub any_equal : Text → Jsons → Bool
    any_equal k no_values = false
    any_equal k (value v vs) = holds equal k (sprint v) || any_equal k vs

    unfoldable mutual
      unfolding any_equal

      -- what a filter asks of the row
      pub matches : Filter → Bool
      matches (eq k v) = holds equal k (sprint v)
      matches (neq k v) = holds not_equal k (sprint v)
      matches (gt k v) = holds greater k (sprint v)
      matches (gte k v) = holds greater_equal k (sprint v)
      matches (lt k v) = holds less k (sprint v)
      matches (lte k v) = holds less_equal k (sprint v)
      matches (in_ k vs) = any_equal k vs
      matches (and_ fs) = matches_all fs
      matches (or_ fs) = matches_any fs

      pub matches_all : Filters → Bool
      matches_all no_filters = true
      matches_all (filter f fs) = matches f && matches_all fs

      pub matches_any : Filters → Bool
      matches_any no_filters = false
      matches_any (filter f fs) = matches f || matches_any fs

-- a parameter between those before it and those behind it
pub get_elem?-middle {ℓ} :
    {A : Type ℓ} (front : List A) (x : A) (back : List A)
    → get_elem? (front ++ x ∷ back) (length front) ≡ some x
get_elem?-middle [] x back = refl
get_elem?-middle (y ∷ front) x back = get_elem?-middle front x back
