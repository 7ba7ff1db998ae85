-- ===== src/Postgresql/Query/Statement.antt =====
-- common/component/postgresql/v1/postgresql_query.go: what Query asks the database.
use dapr_components_contrib.Prelude.{
  ℕ, Text, codes, text_eq, split, some, List, [], ◌∷◌, ◌++◌, Bool,
}
use dapr_components_contrib.Strconv.{format_uint}
use dapr_components_contrib.State.Query.{Json, Filter, eq, neq, gt, gte, lt, lte, in_, and_, or_}
use dapr_components_contrib.State.Query.Builder.{Query, Visited, built, refused, build_query}
use dapr_components_contrib.Postgresql.Visitor.{
  SqlQuery, translate_field_to_filter, visit_and, visit_or,
}
use dapr_components_contrib.State.Query.Builder.{build_filter, finalized}
use dapr_components_contrib.Postgresql.Query.{
  Row, finalize, add_offset, where_part, order_part, limit_part, selected, visitor, answer,
  answer_built, new_query, run_query,
}
use dapr_components_contrib.Postgresql.Visitor.{visit}
use dapr_components_contrib.Postgresql.Visitor.Correct.{visit-supported}
use dapr_components_contrib.Postgresql.Visitor.Refusals.{visit_lem}
use dapr_components_contrib.Postgresql.Query.Fields.{
  quoted_names, Unquoted, quoted_names-translate, AllKeys, AllKeys-mono,
}
use dapr_components_contrib.Postgresql.Visitor.Meaning.{evaluate-translate}
use dapr_components_contrib.Postgresql.Condition.{
  Comparison, Condition, compare, group, operator, sql, values, translate, supported, evaluate,
  matches,
}
use dapr_components_contrib.Prelude.{◌≡◌, refl, ap, sym, ◌∙◌, arith, true, false}
use mathlib.Core.List.{append-nil}

non_empty_text : (s : Text) (c : ℕ) (t : Text) → text_eq (s ++ c ∷ t) [] ≡ false
unfolding text_eq
non_empty_text [] c t = refl
non_empty_text (d ∷ s) c t = refl

non_empty_append : (s t : Text) → text_eq s [] ≡ false → text_eq (s ++ t) [] ≡ false
unfolding text_eq
non_empty_append [] t h = ground arith
non_empty_append (d ∷ s) t h = refl

sql_non_empty : (c : Condition) → text_eq (sql c) (codes "") ≡ false
unfolding text_eq sql
sql_non_empty (compare op k i) =
    non_empty_append (translate_field_to_filter k ++ operator op ++ codes "$") (format_uint i)
      (non_empty_text (translate_field_to_filter k ++ operator op) 36 [])
sql_non_empty (group c cs) = refl

where_part-sql : (c : Condition) → where_part (sql c) ≡ codes " WHERE " ++ sql c
unfolding where_part
where_part-sql c = rw (sql_non_empty c) refl

module _ (sprint : Json → Text) where
  build_filter-visit :
      (f : Filter) (q : SqlQuery) → build_filter (visitor sprint) (some f) q ≡ visit sprint f q
  unfolding build_filter visit visit_and visit_or
  build_filter-visit (eq k v) q = refl
  build_filter-visit (neq k v) q = refl
  build_filter-visit (gt k v) q = refl
  build_filter-visit (gte k v) q = refl
  build_filter-visit (lt k v) q = refl
  build_filter-visit (lte k v) q = refl
  build_filter-visit (in_ k vs) q = refl
  build_filter-visit (and_ fs) q = refl
  build_filter-visit (or_ fs) q = refl

  finalized_refused :
      (r : SqlQuery × Visited Text) (qq : Query) (e : Text)
      → r.1 ≡ refused e
      → finalized (visitor sprint) r qq ≡ (r.0, refused e)
  unfolding finalized
  finalized_refused (q, built s) qq e h = ground arith
  finalized_refused (q, refused e') qq e h = ap (λ z. (q, z)) (ground (arith, h))

  -- A query whose filter asks for the order of a string or has an empty IN is refused; the database is
  -- not asked, so the result does not depend on it.
  pub run_query_refused :
      (table_name etag_column : Text) (qq : Query) (f : Filter)
      → qq.filter ≡ some f
      → supported f ≡ false
      → (e : Text) × ((db : Text → List Text → Visited (List Row))
          → run_query sprint db table_name etag_column qq ≡ refused e)
  unfolding run_query build_query answer_built
  run_query_refused table_name etag_column qq f e h =
      let (x, p) = (visit_lem sprint f (new_query table_name etag_column)).1 h in
      (
        x,
        λ db.
            ap
              (λ z. answer_built db (
                finalized (visitor sprint)
                  (build_filter (visitor sprint) z (new_query table_name etag_column)) qq))
              e
            ∙ (ap (λ z. answer_built db (finalized (visitor sprint) z qq))
                  (build_filter-visit f (new_query table_name etag_column))
                ∙ ap (answer_built db) (finalized_refused _ qq x p)),
      )

  build_query-supported :
      (table_name etag_column : Text) (qq : Query) (f : Filter)
      → qq.filter ≡ some f
      → supported f ≡ true
      → build_query (visitor sprint) qq (new_query table_name etag_column)
        ≡ finalize
            (sql (translate sprint f 0))
            qq
            (record (new_query table_name etag_column) { params = values sprint f })
  unfolding build_query finalized
  build_query-supported table_name etag_column qq f e h =
      ap
        (λ z.
          finalized (visitor sprint)
            (build_filter (visitor sprint) z (new_query table_name etag_column)) qq)
        e
      ∙ (ap (λ z. finalized (visitor sprint) z qq)
            (build_filter-visit f (new_query table_name etag_column))
          ∙ ap (λ z. finalized (visitor sprint) z qq)
              (visit-supported sprint f (new_query table_name etag_column) h))

  -- A query whose filter is supported and has no quote in its keys, and that asks for the first page, without a
  -- token, is one statement to the database. Its WHERE is the text of a condition that says of a row, with the
  -- parameters that the statement is given, what the filter asks of it; the SQL of each key quotes just the
  -- parts of its path; the order and the limit are those of the query.
  pub run_query_lem :
      (holds : Comparison → Text → Text → Bool) (db : Text → List Text → Visited (List Row))
      (table_name etag_column : Text) (qq : Query) (f : Filter)
      → qq.filter ≡ some f
      → supported f ≡ true
      → AllKeys Unquoted f
      → qq.query_fields.page.token ≡ []
      → (c : Condition) × (q : SqlQuery) × (run_query sprint db table_name etag_column qq
          ≡ answer db q)
        × (q.query
            ≡ codes "SELECT key, value, "
              ++ etag_column
              ++ codes " as etag FROM "
              ++ table_name
              ++ (codes " WHERE " ++ sql c)
              ++ order_part qq.query_fields.sort
              ++ limit_part qq.query_fields.page.limit)
        × (evaluate holds q.params c ≡ matches holds sprint f)
        × AllKeys (λ k. quoted_names (translate_field_to_filter k) ≡ split k b'.') f
  unfolding run_query answer_built finalize
  run_query_lem holds db table_name etag_column qq f e h u t =
      let c = translate sprint f 0 in
      let q0 = record (new_query table_name etag_column) { params = values sprint f } in
      (
        c,
        selected (sql c) qq q0,
        ap (answer_built db) (
            build_query-supported table_name etag_column qq f e h
            ∙ ap (λ token. add_offset token (selected (sql c) qq q0)) t),
        ap
            (λ w.
              codes "SELECT key, value, "
              ++ etag_column
              ++ codes " as etag FROM "
              ++ table_name
              ++ w
              ++ order_part qq.query_fields.sort
              ++ limit_part qq.query_fields.page.limit)
            (where_part-sql c),
        evaluate-translate holds sprint f (values sprint f) 0
            ([], [], refl, sym (append-nil (values sprint f))),
        AllKeys-mono f quoted_names-translate u,
      )
