-- ===== src/Postgresql/Visitor/Meaning.antt =====
-- common/component/postgresql/v1/postgresql_query.go: what the condition of a filter says of a row.
use dapr_components_contrib.Prelude.{
  ℕ, suc, ◌+◌, Text, some, List, [], ◌∷◌, ◌++◌, length, length-append, get_elem?, Bool, true, ◌&&◌,
  ◌||◌, ◌≡◌, refl, sym, ap, ◌∙◌, subst, arith,
}
use mathlib.Core.List.{append_assoc}
use dapr_components_contrib.State.Query.{
  Json, Jsons, no_values, value, Filter, eq, neq, gt, gte, lt, lte, in_, and_, or_, Filters,
  no_filters, filter,
}
use dapr_components_contrib.State.Query.Builder.{Visited, built}
use dapr_components_contrib.Postgresql.Visitor.{SqlQuery, visit}
use dapr_components_contrib.Postgresql.Condition.{
  Comparison, equal, not_equal, greater, greater_equal, less, less_equal, Condition, compare, sql,
  texts, values, values_each, alternatives, translate, translate_each, supported, evaluate,
  evaluate_all, evaluate_any, matches, matches_all, matches_any, any_equal, get_elem?-middle,
  compare_with,
}
use dapr_components_contrib.Postgresql.Visitor.Correct.{visit-supported}
use mathlib.Core.Path.{ap₂}

module _ (holds : Comparison → Text → Text → Bool) (sprint : Json → Text) where
  -- the parameters `ps` of a statement, with `vs` behind the first `n`
  abbrev Placed : List Text → ℕ → List Text → Type 0
  Placed ps n vs = (before after : List Text) × (n ≡ length before) × (ps ≡ before ++ vs ++ after)

  Placed-elem : (v : Text) (ps : List Text) (n : ℕ) → Placed ps n (v ∷ []) → get_elem? ps n ≡ some v
  Placed-elem v ps n (before, after, e, p) =
      rw (e, p, append_assoc before (v ∷ []) after) (get_elem?-middle before v after)

  Placed-value :
      (op : Comparison) (k : Text) (v : Text) (ps : List Text) (n : ℕ)
      → Placed ps n (v ∷ [])
      → evaluate holds ps (compare op k (suc n)) ≡ holds op k v
  unfolding evaluate
  Placed-value op k v ps n h =
      ap (λ m. compare_with holds op k (get_elem? ps m)) (omega arith)
      ∙ ap (compare_with holds op k) (Placed-elem v ps n h)

  Placed-left :
      (ps : List Text) (n : ℕ) (vs ws : List Text) → Placed ps n (vs ++ ws) → Placed ps n vs
  Placed-left ps n vs ws (before, after, e, p) = (
    before,
    ws ++ after,
    e,
    p
        ∙ ap (λ (l : List Text). l ++ after) (sym (append_assoc before vs ws))
        ∙ append_assoc (before ++ vs) ws after,
  )

  Placed-right :
      (ps : List Text) (n : ℕ) (vs ws : List Text)
      → Placed ps n (vs ++ ws)
      → Placed ps (n + length vs) ws
  Placed-right ps n vs ws (before, after, e, p) = (
    before ++ vs,
    after,
    omega (arith, e, length-append before vs),
    p ∙ ap (λ (l : List Text). l ++ after) (sym (append_assoc before vs ws)),
  )

  alternatives_lem :
      (k : Text) (vs : Jsons) (ps : List Text) (n : ℕ)
      → Placed ps n (texts sprint vs)
      → evaluate_any holds ps (alternatives sprint k vs n) ≡ any_equal holds sprint k vs
  unfolding evaluate texts alternatives any_equal
  alternatives_lem k no_values ps n h = refl
  alternatives_lem k (value v vs) ps n h =
      let rest : Placed ps (suc n) (texts sprint vs) =
        subst (λ m. Placed ps m (texts sprint vs)) (omega arith)
          (Placed-right ps n (sprint v ∷ []) (texts sprint vs) h) in
      ap₂ ◌||◌
        (Placed-value equal k (sprint v) ps n
          (Placed-left ps n (sprint v ∷ []) (texts sprint vs) h))
        (alternatives_lem k vs ps (suc n) rest)

  mutual
    unfolding evaluate values translate matches

    pub evaluate-translate :
        (f : Filter) (ps : List Text) (n : ℕ)
        → Placed ps n (values sprint f)
        → evaluate holds ps (translate sprint f n) ≡ matches holds sprint f
    evaluate-translate (eq k v) ps n h = Placed-value equal k (sprint v) ps n h
    evaluate-translate (neq k v) ps n h = Placed-value not_equal k (sprint v) ps n h
    evaluate-translate (gt k v) ps n h = Placed-value greater k (sprint v) ps n h
    evaluate-translate (gte k v) ps n h = Placed-value greater_equal k (sprint v) ps n h
    evaluate-translate (lt k v) ps n h = Placed-value less k (sprint v) ps n h
    evaluate-translate (lte k v) ps n h = Placed-value less_equal k (sprint v) ps n h
    evaluate-translate (in_ k vs) ps n h = alternatives_lem k vs ps n h
    evaluate-translate (and_ fs) ps n h = all_lem fs ps n h
    evaluate-translate (or_ fs) ps n h = any_lem fs ps n h

    all_lem :
        (fs : Filters) (ps : List Text) (n : ℕ)
        → Placed ps n (values_each sprint fs)
        → evaluate_all holds ps (translate_each sprint fs n) ≡ matches_all holds sprint fs
    all_lem no_filters ps n h = refl
    all_lem (filter f fs) ps n h =
        ap₂ ◌&&◌
          (evaluate-translate f ps n (Placed-left ps n (values sprint f) (values_each sprint fs) h))
          (all_lem fs ps (n + length (values sprint f))
            (Placed-right ps n (values sprint f) (values_each sprint fs) h))

    any_lem :
        (fs : Filters) (ps : List Text) (n : ℕ)
        → Placed ps n (values_each sprint fs)
        → evaluate_any holds ps (translate_each sprint fs n) ≡ matches_any holds sprint fs
    any_lem no_filters ps n h = refl
    any_lem (filter f fs) ps n h =
        ap₂ ◌||◌
          (evaluate-translate f ps n (Placed-left ps n (values sprint f) (values_each sprint fs) h))
          (any_lem fs ps (n + length (values sprint f))
            (Placed-right ps n (values sprint f) (values_each sprint fs) h))

  -- A filter that is not refused is visited, with the text of a condition that says of a row what the
  -- filter asks of it, whatever parameters the statement has before and behind those of the filter.
  pub visit-matches :
      (f : Filter) (q : SqlQuery) (after : List Text)
      → supported f ≡ true
      → (c : Condition) × ((visit sprint f q).1 ≡ built (sql c))
        × (evaluate holds ((visit sprint f q).0.params ++ after) c ≡ matches holds sprint f)
  visit-matches f q after h =
      let e = visit-supported sprint f q h in
      (
        translate sprint f (length q.params),
        ap (λ r. r.1) e,
        evaluate-translate f _ _
            (q.params, after, refl, ap (λ (r : SqlQuery × Visited Text). r.0.params ++ after) e),
      )
