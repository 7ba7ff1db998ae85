-- ===== src/Postgresql/Visitor/Refusals.antt =====
-- common/component/postgresql/v1/postgresql_query.go: the filters that the visitor refuses.
use dapr_components_contrib.Prelude.{
  Text, codes, List, length, true, false, ◌≡◌, refl, arith, Bool-cases, and_false, inl, inr,
}
use dapr_components_contrib.State.Query.{
  Json, string, null, boolean, number, array, object, Jsons, no_values, value, Filter, eq, neq, gt,
  gte, lt, lte, in_, and_, or_, Filters, no_filters, filter,
}
use dapr_components_contrib.State.Query.Builder.{Visited, built, refused}
use dapr_components_contrib.Postgresql.Visitor.{
  SqlQuery, where_field_greater_than, where_field_greater_than_equal, where_field_less_than,
  where_field_less_than_equal, not_string, visit_gt, visit_gte, visit_lt, visit_lte, visit_in,
  joined, cons_visited, append_visited, visit, visit_each,
}
use dapr_components_contrib.Postgresql.Condition.{
  sql, values, translate, ordered, non_empty, supported, supported_each,
}
use dapr_components_contrib.Postgresql.Visitor.Correct.{with_params, visit-supported}

module _ (sprint : Json → Text) where
  not_string_refused :
      (compare_field : Text → Json → SqlQuery → SqlQuery × Text) (k : Text) (v : Json)
      (q : SqlQuery)
      → ordered v ≡ false
      → (e : Text) × ((not_string sprint compare_field k v q).1 ≡ refused e)
  unfolding not_string ordered
  not_string_refused c k (string s) q h = (_, refl)
  not_string_refused c k null q h = ground arith
  not_string_refused c k (boolean b) q h = ground arith
  not_string_refused c k (number n) q h = ground arith
  not_string_refused c k (array js) q h = ground arith
  not_string_refused c k (object fs) q h = ground arith

  visit_in_refused :
      (k : Text) (vs : Jsons) (q : SqlQuery)
      → non_empty vs ≡ false
      → (e : Text) × ((visit_in sprint k vs q).1 ≡ refused e)
  unfolding visit_in non_empty
  visit_in_refused k no_values q h = (_, refl)
  visit_in_refused k (value v vs) q h = ground arith

  joined_refused :
      (op : Text) (r : SqlQuery × Visited (List Text)) (e : Text)
      → r.1 ≡ refused e
      → (joined sprint op r).1 ≡ refused e
  unfolding joined
  joined_refused op (q, built arr) e h = ground arith
  joined_refused op (q, refused e') e h = ground (arith, h)

  cons_visited_refused :
      (s : Text) (r : SqlQuery × Visited (List Text)) (e : Text)
      → r.1 ≡ refused e
      → (cons_visited sprint s r).1 ≡ refused e
  unfolding cons_visited
  cons_visited_refused s (q, built arr) e h = ground arith
  cons_visited_refused s (q, refused e') e h = ground (arith, h)

  append_visited_refused :
      (first : SqlQuery × Visited Text) (rest : SqlQuery → SqlQuery × Visited (List Text))
      (e : Text)
      → first.1 ≡ refused e
      → (append_visited sprint first rest).1 ≡ refused e
  unfolding append_visited
  append_visited_refused (q, built s) rest e h = ground arith
  append_visited_refused (q, refused e') rest e h = ground (arith, h)

  append_visited_later :
      (first : SqlQuery × Visited Text) (q : SqlQuery) (s : Text)
      → (rest : SqlQuery → SqlQuery × Visited (List Text)) (e : Text) → first ≡ (q, built s)
      → (rest q).1 ≡ refused e
      → (append_visited sprint first rest).1 ≡ refused e
  unfolding append_visited
  append_visited_later first q s rest e h p = rw h (cons_visited_refused s (rest q) e p)

  mutual
    unfolding visit visit_gt visit_gte visit_lt visit_lte supported

    visit_refused :
        (f : Filter) (q : SqlQuery)
        → supported f ≡ false
        → (e : Text) × ((visit sprint f q).1 ≡ refused e)
    visit_refused (eq k v) q h = ground arith
    visit_refused (neq k v) q h = ground arith
    visit_refused (gt k v) q h = not_string_refused (where_field_greater_than sprint) k v q h
    visit_refused (gte k v) q h = not_string_refused (where_field_greater_than_equal sprint) k v q h
    visit_refused (lt k v) q h = not_string_refused (where_field_less_than sprint) k v q h
    visit_refused (lte k v) q h = not_string_refused (where_field_less_than_equal sprint) k v q h
    visit_refused (in_ k vs) q h = visit_in_refused k vs q h
    visit_refused (and_ fs) q h =
        let (e, p) = visit_each_refused fs q h in
        (e, joined_refused (codes "AND") (visit_each sprint fs q) e p)
    visit_refused (or_ fs) q h =
        let (e, p) = visit_each_refused fs q h in
        (e, joined_refused (codes "OR") (visit_each sprint fs q) e p)

    visit_each_refused :
        (fs : Filters) (q : SqlQuery)
        → supported_each fs ≡ false
        → (e : Text) × ((visit_each sprint fs q).1 ≡ refused e)
    visit_each_refused no_filters q h = ground arith
    visit_each_refused (filter f fs) q h = elim (Bool-cases (supported f)) [
      | inr bad ↦
          let (e, p) = visit_refused f q bad in
          (e, append_visited_refused _ (visit_each sprint fs) e p)
      | inl ok ↦
          let (e, p) =
            visit_each_refused fs (with_params sprint q (values sprint f)) (and_false _ _ ok h) in
          (e, append_visited_later _ _ _ (visit_each sprint fs) e (visit-supported sprint f q ok) p)
    ]

  -- A filter is visited: where no order is asked of a string and no IN is empty, the values of the
  -- filter come behind the parameters, from left to right, and the text is the one of the filter's
  -- condition, each of whose placeholders has the position of its value. Any other filter is refused.
  pub visit_lem :
      (f : Filter) (q : SqlQuery)
      → (supported f ≡ true
          → visit sprint f q ≡ (
            with_params sprint q (values sprint f),
            built (sql (translate sprint f (length q.params))),
          ))
        × (supported f ≡ false → (e : Text) × ((visit sprint f q).1 ≡ refused e))
  visit_lem f q = (visit-supported sprint f q, visit_refused f q)
