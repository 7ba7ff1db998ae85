-- ===== src/State/Query/Builder.antt =====
-- state/query/query.go: reading a query, and handing its filter to the visitor of a state store.
use dapr_components_contrib.Prelude.{
  Text, codes, Option, none, some, List, ◌≡◌, refl, ap, sym, subst, arith, ◌⊎◌, inl, inr,
}
use dapr_components_contrib.Strconv.{ℤ}
use dapr_components_contrib.State.Query.{
  Json, object, Jsons, Fields, no_fields, field, Filter, eq, neq, gt, gte, lt, lte, in_, and_, or_,
  Filters, Parsed, done, failed, parse_filter,
}
use dapr_components_contrib.State.Query.Reading.{IsForm, parse_filter_iff}

pub record Sorting : Type 0 where
  pub key : Text
  pub order : Text

pub record Pagination : Type 0 where
  pub limit : ℤ
  pub token : Text

-- what json.Unmarshal has read; a map that is nil has no fields
pub record QueryFields : Type 0 where
  pub filters : Fields
  pub sort : List Sorting
  pub page : Pagination

-- `filter` is none for nil.
pub record Query : Type 0 where
  pub query_fields : QueryFields
  pub filter : Option Filter

with_filter : QueryFields → Parsed Filter → Parsed Query
with_filter q (done f) = done (record { query_fields = q; filter = some f })
with_filter q (failed e) = failed e

with_filters : QueryFields → Fields → Parsed Query
unfolding with_filter parse_filter
with_filters q no_fields = done (record { query_fields = q; filter = none })
with_filters q (field k v rest) = with_filter q (parse_filter (object (field k v rest)))

-- UnmarshalJSON, after json.Unmarshal
unfoldable pub unmarshal : QueryFields → Parsed Query
unfolding with_filters
unmarshal q = with_filters q q.filters

-- What a visitor returns: a part of the native query, or an error
pub data Visited {ℓ} (A : Type ℓ) : Type ℓ where
  built : A → Visited A
  refused : Text → Visited A

-- Visitor: its methods may change what it points to, which is its state here.
pub record Visitor {ℓ} (S : Type ℓ) : Type ℓ where
  pub visit_eq : Text → Json → S → S × Visited Text
  pub visit_neq : Text → Json → S → S × Visited Text
  pub visit_gt : Text → Json → S → S × Visited Text
  pub visit_gte : Text → Json → S → S × Visited Text
  pub visit_lt : Text → Json → S → S × Visited Text
  pub visit_lte : Text → Json → S → S × Visited Text
  pub visit_in : Text → Jsons → S → S × Visited Text
  pub visit_and : Filters → S → S × Visited Text
  pub visit_or : Filters → S → S × Visited Text
  pub finalize : Text → Query → S → S × Visited (Unit {0})

module _ {ℓ} {S : Type ℓ} (visitor : Visitor S) where
  -- buildFilter; its last case is for a type of another package
  unfoldable pub build_filter : Option Filter → S → S × Visited Text
  build_filter none s = (s, built (codes ""))
  build_filter (some (eq k v)) s = visitor.visit_eq k v s
  build_filter (some (neq k v)) s = visitor.visit_neq k v s
  build_filter (some (gt k v)) s = visitor.visit_gt k v s
  build_filter (some (gte k v)) s = visitor.visit_gte k v s
  build_filter (some (lt k v)) s = visitor.visit_lt k v s
  build_filter (some (lte k v)) s = visitor.visit_lte k v s
  build_filter (some (in_ k vs)) s = visitor.visit_in k vs s
  build_filter (some (or_ fs)) s = visitor.visit_or fs s
  build_filter (some (and_ fs)) s = visitor.visit_and fs s

  unfoldable pub finalized : S × Visited Text → Query → S × Visited (Unit {0})
  finalized (s, built filters) q = visitor.finalize filters q s
  finalized (s, refused e) q = (s, refused e)

  -- BuildQuery
  unfoldable pub build_query : Query → S → S × Visited (Unit {0})
  unfolding build_filter finalized
  build_query q s = finalized (build_filter q.filter s) q

-- The query that the fields spell: no filter for an empty map, and otherwise the filter of its form.
abbrev pub Spells : QueryFields → Query → Type 0
Spells q r =
    (r.query_fields ≡ q)
    × (((q.filters ≡ no_fields) × (r.filter ≡ none))
        ⊎ ((f : Filter) × IsForm (object q.filters) f × (r.filter ≡ some f)))

with_filter_done :
    (q : QueryFields) (p : Parsed Filter) (r : Query)
    → with_filter q p ≡ done r
    → (f : Filter) × (p ≡ done f) × (r ≡ record { query_fields = q; filter = some f })
unfolding with_filter
with_filter_done q (done f) r e = (f, refl, ground arith)
with_filter_done q (failed x) r e = ground arith

with_filters_done :
    (q : QueryFields) (fields : Fields) (r : Query)
    → q.filters ≡ fields
    → with_filters q fields ≡ done r
    → Spells q r
unfolding with_filters
with_filters_done q no_fields r p e = (ground (arith, e), inl (p, ground (arith, e)))
with_filters_done q (field k v rest) r p e =
    let (f, x, y) = with_filter_done q (parse_filter (object (field k v rest))) r e in
    (
      ap (λ (z : Query). z.query_fields) y,
      inr (
        f,
        subst (λ z. IsForm (object z) f) (sym p) ((parse_filter_iff _ f).0 x),
        ap (λ (z : Query). z.filter) y,
      ),
    )

-- A query that is read has its fields as they were, and the filter whose JSON form they hold, or none
-- if they hold no filter.
pub unmarshal_lem : (q : QueryFields) (r : Query) → unmarshal q ≡ done r → Spells q r
unfolding unmarshal
unmarshal_lem q r e = with_filters_done q q.filters r refl e
