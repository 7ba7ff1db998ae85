-- ===== src/Postgresql/Query/Fields.antt =====
-- common/component/postgresql/v1/postgresql_query.go: the names that the SQL of a field quotes, for keys without
-- a quote: translateFieldToFilter does not double the quotes in a key.
use dapr_components_contrib.Prelude.{
  ℕ, Text, codes, split, List, [], ◌∷◌, ◌++◌, ◌≡◌, ◌≢◌, refl, ap, ◌∙◌, arith, All, ◌==◌,
  ne→eq_false, Bool-cases, inl, inr,
}
use dapr_components_contrib.Prelude.Split.{cons_part}
use mathlib.Core.List.{append_assoc}
use dapr_components_contrib.State.Query.{
  Filter, eq, neq, gt, gte, lt, lte, in_, and_, or_, Filters, no_filters, filter,
}
use dapr_components_contrib.Postgresql.Visitor.{arrows, translate_field_to_filter}

abbrev pub every_second : List Text → List Text
every_second [] = []
every_second (x ∷ []) = []
every_second (x ∷ y ∷ rest) = y ∷ every_second rest

-- the texts between quotes
abbrev pub quoted_names : Text → List Text
quoted_names s = every_second (split s b'\'')

abbrev pub Unquoted : Text → Type 0
Unquoted = All (λ c. c ≢ b'\'')

every_second-cons_part :
    (c : ℕ) (parts : List Text) → every_second (cons_part c parts) ≡ every_second parts
unfolding cons_part
every_second-cons_part c [] = refl
every_second-cons_part c (p ∷ []) = refl
every_second-cons_part c (p ∷ q ∷ rest) = refl

quoted_names-append : (pre s : Text) → Unquoted pre → quoted_names (pre ++ s) ≡ quoted_names s
unfolding split
quoted_names-append [] s h = refl
quoted_names-append (c ∷ pre) s h =
    rw (ne→eq_false c b'\'' h.0)
      (every_second-cons_part c (split (pre ++ s) b'\'') ∙ quoted_names-append pre s h.1)

split-append : (p s : Text) → Unquoted p → split (p ++ b'\'' ∷ s) b'\'' ≡ p ∷ split s b'\''
unfolding split cons_part
split-append [] s h = refl
split-append (c ∷ p) s h = rw (ne→eq_false c b'\'' h.0) (ap (cons_part c) (split-append p s h.1))

quoted_names-quoted :
    (p s : Text) → Unquoted p → quoted_names (b'\'' ∷ (p ++ b'\'' ∷ s)) ≡ p ∷ quoted_names s
unfolding split
quoted_names-quoted p s h = ap (λ parts. every_second ([] ∷ parts)) (split-append p s h)

quoted_names-arrows : (parts : List Text) → All Unquoted parts → quoted_names (arrows parts) ≡ parts
unfolding arrows split
quoted_names-arrows [] h = refl
quoted_names-arrows (p ∷ []) h =
    quoted_names-append (codes "->>") (b'\'' ∷ (p ++ b'\'' ∷ [])) (ground arith)
    ∙ quoted_names-quoted p [] h.0
quoted_names-arrows (p ∷ q ∷ rest) h =
    ap (λ s. quoted_names (codes "->'" ++ s)) (append_assoc p (b'\'' ∷ []) (arrows (q ∷ rest)))
    ∙ quoted_names-append (codes "->") (b'\'' ∷ (p ++ b'\'' ∷ arrows (q ∷ rest))) (ground arith)
    ∙ quoted_names-quoted p (arrows (q ∷ rest)) h.0
    ∙ ap (◌∷◌ p) (quoted_names-arrows (q ∷ rest) h.1)

All-cons_part :
    (P : ℕ → Type 0) (c : ℕ) (parts : List Text)
    → P c
    → All (All P) parts
    → All (All P) (cons_part c parts)
unfolding cons_part
All-cons_part P c [] p a = ((p, tt), tt)
All-cons_part P c (x ∷ parts) p a = ((p, a.0), a.1)

All-split : (P : ℕ → Type 0) (s : Text) (sep : ℕ) → All P s → All (All P) (split s sep)
unfolding split
All-split P [] sep a = (tt, tt)
All-split P (c ∷ s) sep a = elim (Bool-cases (c == sep)) [
  | inl e ↦ rw e (tt, All-split P s sep a.1)
  | inr e ↦ rw e (All-cons_part P c (split s sep) a.0 (All-split P s sep a.1))
]

translate-arrows : (k : Text) → translate_field_to_filter k ≡ codes "value" ++ arrows (split k b'.')
unfolding translate_field_to_filter split cons_part
translate-arrows k = refl

pub quoted_names-translate :
    (k : Text) → Unquoted k → quoted_names (translate_field_to_filter k) ≡ split k b'.'
quoted_names-translate k h =
    ap quoted_names (translate-arrows k)
    ∙ quoted_names-append (codes "value") (arrows (split k b'.')) (ground arith)
    ∙ quoted_names-arrows (split k b'.') (All-split (λ c. c ≢ b'\'') k b'.' h)

-- A predicate on the keys of a filter, at any depth.
unfoldable mutual
  pub AllKeys : (Text → Type 0) → Filter → Type 0
  AllKeys P (eq k v) = P k
  AllKeys P (neq k v) = P k
  AllKeys P (gt k v) = P k
  AllKeys P (gte k v) = P k
  AllKeys P (lt k v) = P k
  AllKeys P (lte k v) = P k
  AllKeys P (in_ k vs) = P k
  AllKeys P (and_ fs) = AllKeysEach P fs
  AllKeys P (or_ fs) = AllKeysEach P fs

  pub AllKeysEach : (Text → Type 0) → Filters → Type 0
  AllKeysEach P no_filters = Unit
  AllKeysEach P (filter f fs) = AllKeys P f × AllKeysEach P fs

mutual
  unfolding AllKeys

  pub AllKeys-mono :
      {P Q : Text → Type 0} (f : Filter) → ((k : Text) → P k → Q k) → AllKeys P f → AllKeys Q f
  AllKeys-mono (eq k v) g a = g k a
  AllKeys-mono (neq k v) g a = g k a
  AllKeys-mono (gt k v) g a = g k a
  AllKeys-mono (gte k v) g a = g k a
  AllKeys-mono (lt k v) g a = g k a
  AllKeys-mono (lte k v) g a = g k a
  AllKeys-mono (in_ k vs) g a = g k a
  AllKeys-mono (and_ fs) g a = AllKeysEach-mono fs g a
  AllKeys-mono (or_ fs) g a = AllKeysEach-mono fs g a

  AllKeysEach-mono :
      {P Q : Text → Type 0} (fs : Filters)
      → ((k : Text) → P k → Q k)
      → AllKeysEach P fs
      → AllKeysEach Q fs
  AllKeysEach-mono no_filters g a = tt
  AllKeysEach-mono (filter f fs) g a = (AllKeys-mono f g a.0, AllKeysEach-mono fs g a.1)
