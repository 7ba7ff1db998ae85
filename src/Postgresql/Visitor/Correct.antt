-- ===== src/Postgresql/Visitor/Correct.antt =====
-- common/component/postgresql/v1/postgresql_query.go: the text and the parameters of a filter.
use dapr_components_contrib.Prelude.{
  suc, Text, codes, join, List, [], ◌∷◌, ◌++◌, length, length-append, true, ◌≡◌, refl, sym, ap, ◌∙◌,
  arith, and_true,
}
use mathlib.Core.List.{append_assoc, append-nil}
use dapr_components_contrib.State.Query.{
  Json, string, null, boolean, number, array, object, Jsons, no_values, value, Filter, eq, neq, gt,
  gte, lt, lte, in_, and_, or_, Filters, no_filters, filter,
}
use dapr_components_contrib.State.Query.Builder.{Visited, built}
use dapr_components_contrib.Postgresql.Visitor.{
  SqlQuery, add_param_value, where_field, where_field_equal, where_field_not_equal,
  where_field_greater_than, where_field_greater_than_equal, where_field_less_than,
  where_field_less_than_equal, visit_eq, visit_neq, not_string, visit_gt, visit_gte, visit_lt,
  visit_lte, or_equal, visit_in, joined, cons_visited, append_visited, visit, visit_each,
}
use dapr_components_contrib.Postgresql.Condition.{
  Comparison, equal, greater, greater_equal, less, less_equal, disjunction, compare, group,
  operator, sql, sql_each, texts, values, values_each, alternatives, translate, translate_each,
  ordered, non_empty, supported, supported_each,
}

-- what `join` gives behind the first of the parts
abbrev join_rest : Text → List Text → Text
join_rest sep [] = []
join_rest sep (s ∷ rest) = sep ++ (s ++ join_rest sep rest)

join-cons :
    (s : Text) (rest : List Text) (sep : Text) → join (s ∷ rest) sep ≡ s ++ join_rest sep rest
unfolding join
join-cons s [] sep = sym (append-nil s)
join-cons s (t ∷ rest) sep = rw (join-cons t rest sep) (append_assoc s sep _)

module _ (sprint : Json → Text) where
  abbrev pub with_params : SqlQuery → List Text → SqlQuery
  with_params q vs = record q { params = q.params ++ vs }

  length-with_param :
      (q : SqlQuery) (v : Text) → length (q.params ++ v ∷ []) ≡ suc (length q.params)
  length-with_param q v = omega (arith, length-append q.params (v ∷ []))

  where_field_lem :
      (op : Comparison) (k : Text) (v : Json) (q : SqlQuery)
      → where_field sprint (operator op) k v q
        ≡ (with_params q (sprint v ∷ []), sql (compare op k (suc (length q.params))))
  unfolding where_field add_param_value sql
  where_field_lem op k v q = rw (length-with_param q (sprint v)) refl

  or_equal_lem :
      (k : Text) (vs : Jsons) (q : SqlQuery)
      → or_equal sprint k vs q ≡ (
        with_params q (texts sprint vs),
        join_rest (codes " OR ") (sql_each (alternatives sprint k vs (length q.params))),
      )
  unfolding or_equal texts alternatives where_field_equal sql_each
  or_equal_lem k no_values q = rw (append-nil q.params) refl
  or_equal_lem k (value v vs) q =
      rw
        (
          or_equal_lem k vs (with_params q (sprint v ∷ [])),
          length-with_param q (sprint v),
          append_assoc q.params (sprint v ∷ []) (texts sprint vs),
        )
        refl

  visit_in_lem :
      (k : Text) (vs : Jsons) (q : SqlQuery)
      → non_empty vs ≡ true
      → visit_in sprint k vs q ≡ (
        with_params q (texts sprint vs),
        built (sql (group disjunction (alternatives sprint k vs (length q.params)))),
      )
  unfolding visit_in texts alternatives where_field_equal sql non_empty
  visit_in_lem k no_values q h = ground arith
  visit_in_lem k (value v vs) q h =
      rw
        (
          or_equal_lem k vs (with_params q (sprint v ∷ [])),
          length-with_param q (sprint v),
          append_assoc q.params (sprint v ∷ []) (texts sprint vs),
          join-cons (sql (compare equal k (suc (length q.params))))
              (sql_each (alternatives sprint k vs (suc (length q.params)))) (codes " OR "),
        )
        refl

  not_string_lem :
      (op : Comparison) (k : Text) (v : Json) (q : SqlQuery)
      → ordered v ≡ true
      → not_string sprint (where_field sprint (operator op)) k v q
        ≡ (with_params q (sprint v ∷ []), built (sql (compare op k (suc (length q.params)))))
  unfolding not_string ordered
  not_string_lem op k (string s) q h = ground arith
  not_string_lem op k null q h = rw (where_field_lem op k null q) refl
  not_string_lem op k (boolean b) q h = rw (where_field_lem op k (boolean b) q) refl
  not_string_lem op k (number n) q h = rw (where_field_lem op k (number n) q) refl
  not_string_lem op k (array js) q h = rw (where_field_lem op k (array js) q) refl
  not_string_lem op k (object fs) q h = rw (where_field_lem op k (object fs) q) refl

  append_visited-built :
      (first : SqlQuery × Visited Text) (q : SqlQuery) (s : Text)
      → (rest : SqlQuery → SqlQuery × Visited (List Text)) (q' : SqlQuery) (arr : List Text)
      → first ≡ (q, built s)
      → rest q ≡ (q', built arr)
      → append_visited sprint first rest ≡ (q', built (s ∷ arr))
  unfolding append_visited
  append_visited-built first q s rest q' arr e h = rw e (ap (cons_visited sprint s) h)

  mutual
    unfolding visit visit_eq visit_neq visit_gt visit_gte visit_lt visit_lte where_field_equal
        where_field_not_equal where_field_greater_than where_field_greater_than_equal
        where_field_less_than where_field_less_than_equal values translate supported joined sql
        append_visited

    pub visit-supported :
        (f : Filter) (q : SqlQuery)
        → supported f ≡ true
        → visit sprint f q
          ≡ (with_params q (values sprint f), built (sql (translate sprint f (length q.params))))
    visit-supported (eq k v) q h = rw (length-with_param q (sprint v)) refl
    visit-supported (neq k v) q h = rw (length-with_param q (sprint v)) refl
    visit-supported (gt k v) q h = not_string_lem greater k v q h
    visit-supported (gte k v) q h = not_string_lem greater_equal k v q h
    visit-supported (lt k v) q h = not_string_lem less k v q h
    visit-supported (lte k v) q h = not_string_lem less_equal k v q h
    visit-supported (in_ k vs) q h = visit_in_lem k vs q h
    visit-supported (and_ fs) q h = rw (visit_each_supported fs q h) refl
    visit-supported (or_ fs) q h = rw (visit_each_supported fs q h) refl

    visit_each_supported :
        (fs : Filters) (q : SqlQuery)
        → supported_each fs ≡ true
        → visit_each sprint fs q ≡ (
          with_params q (values_each sprint fs),
          built (sql_each (translate_each sprint fs (length q.params))),
        )
    visit_each_supported no_filters q h = rw (append-nil q.params) refl
    visit_each_supported (filter f fs) q h =
        let (here, there) = and_true (supported f) (supported_each fs) h in
        append_visited-built (visit sprint f q) _ _ (visit_each sprint fs) _ _
          (visit-supported f q here)
          (visit_each_supported fs (with_params q (values sprint f)) there)
        ∙ rw
            (
              length-append q.params (values sprint f),
              append_assoc q.params (values sprint f) (values_each sprint fs),
            )
            refl
