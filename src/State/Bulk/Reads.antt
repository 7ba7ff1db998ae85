-- ===== src/State/Bulk/Reads.antt =====
-- DoBulkGet (state/bulk.go) returns, and only once every slot is filled.
use dapr_components_contrib.Prelude.{
  ℕ, suc, ◌+◌, ◌-◌, ◌*◌, ◌<◌, ◌≤◌, some, List, [], ◌∷◌, ◌++◌, length, length-append, Bool-cases,
  ltb, ◌==◌, if◌then◌else◌, ◌≡◌, ◌≢◌, refl, ap, sym, subst, arith, ◌⊎◌, inl, inr,
}
use dapr_components_contrib.State.Bulk.{
  BulkGetResult, Getting, GetStep, start_get, end_get, fill, GetReach, get_begins, get_goes_on,
  IsDone,
}

-- The goroutine of the request with the index runs.
abbrev pub Runs : ℕ → List ℕ → Type 0
Runs j [] = ⊥
Runs j (i ∷ is) = (i ≡ j) ⊎ Runs j is

pub Runs-middle :
    (j : ℕ) (front back : List ℕ) (i : ℕ)
    → Runs j (front ++ i ∷ back)
    → (i ≡ j) ⊎ Runs j (front ++ back)
Runs-middle j [] back i r = r
Runs-middle j (x ∷ front) back i (inl e) = inr (inl e)
Runs-middle j (x ∷ front) back i (inr r) = elim (Runs-middle j front back i r) [
  | inl e ↦ inl e
  | inr q ↦ inr (inr q)
]

pub Runs-keep :
    (j : ℕ) (front back : List ℕ) (i : ℕ) → Runs j (front ++ back) → Runs j (front ++ i ∷ back)
Runs-keep j [] back i r = inr r
Runs-keep j (x ∷ front) back i (inl e) = inl e
Runs-keep j (x ∷ front) back i (inr r) = inr (Runs-keep j front back i r)

pub Runs-here : (front back : List ℕ) (i : ℕ) → Runs i (front ++ i ∷ back)
Runs-here [] back i = inl refl
Runs-here (x ∷ front) back i = inr (Runs-here front back i)

pub nothing-Runs : (j : ℕ) (is : List ℕ) → length is ≡ 0 → Runs j is → ⊥
nothing-Runs j [] e r = r
nothing-Runs j (i ∷ is) e r = absurd (omega (arith, e))

module _ (n tokens : ℕ) (answer : ℕ → BulkGetResult) where
  pub record IsTracked (s : Getting) : Type 0 where
    pub in_range : s.started ≤ n
    pub fits : length s.running + s.filled ≤ tokens
    pub last : s.filled ≡ 0 ⊎ s.started ≡ n
    pub tracked : (j : ℕ) → j < s.started → Runs j s.running ⊎ s.res j ≡ some (answer j)

  start_tracked :
      (s : Getting) (j : ℕ)
      → IsTracked s
      → j < suc s.started
      → Runs j (s.started ∷ s.running) ⊎ s.res j ≡ some (answer j)
  start_tracked s j v h = elim (Bool-cases (j == s.started)) [
    | inl e ↦ inl (inl (ground (arith, e)))
    | inr e ↦ elim (v.tracked j (ground (arith, e, h))) [ inl r ↦ inl (inr r) | inr a ↦ inr a ]
  ]

  end_tracked :
      (s : Getting) (front back : List ℕ) (i j : ℕ)
      → Runs j (front ++ i ∷ back) ⊎ s.res j ≡ some (answer j)
      → Runs j (front ++ back) ⊎ (if i == j then some (answer i) else s.res j) ≡ some (answer j)
  end_tracked s front back i j (inl r) = elim (Runs-middle j front back i r) [
    | inl e ↦ inr (ground (arith, e))
    | inr q ↦ inl q
  ]
  end_tracked s front back i j (inr a) = inr (ground (arith, a))

  GetStep-IsTracked : {s t : Getting} → GetStep n tokens answer s t → IsTracked s → IsTracked t
  GetStep-IsTracked {s = s} (start_get l m e) v = subst IsTracked (sym e) (record {
    in_range = omega (arith, l);
    fits = ground (arith, v.last, l, m);
    last = inl (ground (arith, v.last, l));
    tracked = λ j. start_tracked s j v;
  })
  GetStep-IsTracked {s = s} (end_get front back i p e) v = subst IsTracked (sym e) (record {
    in_range = v.in_range;
    fits =
        omega
          (arith, v.fits, ap length p, length-append front (i ∷ back), length-append front back);
    last = v.last;
    tracked = λ j h.
        end_tracked s front back i j
          (subst (λ is. Runs j is ⊎ s.res j ≡ some (answer j)) p (v.tracked j h));
  })
  GetStep-IsTracked (fill l m e) v =
      subst IsTracked (sym e) (record {
        in_range = v.in_range;
        fits = omega (arith, m);
        last = inr l;
        tracked = v.tracked;
      })

  pub GetReach-IsTracked : {s : Getting} → GetReach n tokens answer s → IsTracked s
  GetReach-IsTracked get_begins = record {
    in_range = omega arith;
    fits = omega arith;
    last = inl refl;
    tracked = λ j h. absurd (omega (arith, h));
  }
  GetReach-IsTracked (get_goes_on r st) = GetStep-IsTracked st (GetReach-IsTracked r)

  -- When DoBulkGet returns, every request has its answer in its slot, and at no time did more
  -- goroutines run than there are tokens.
  pub bulk_get_lem :
      {s : Getting}
      → GetReach n tokens answer s
      → (length s.running ≤ tokens)
        × (IsDone n tokens s → (j : ℕ) → j < n → s.res j ≡ some (answer j))
  bulk_get_lem {s} r =
      let v = GetReach-IsTracked r in
      (
        omega (arith, v.fits),
        λ d j h. elim (v.tracked j (ground (arith, d, h))) [
          | inl q ↦ absurd (nothing-Runs j s.running (omega (arith, v.fits, d.1)) q)
          | inr a ↦ a
        ],
      )

  -- how many steps are left at most
  abbrev pub left : Getting → ℕ
  left s = 2 * (n - s.started) + length s.running + (tokens - s.filled)

  end_some :
      (s : Getting) (is : List ℕ)
      → s.running ≡ is
      → length is ≢ 0
      → (t : Getting) × GetStep n tokens answer s t
  end_some s [] p h = absurd (h refl)
  end_some s (i ∷ is) p h = (_, end_get [] is i p refl)

  get_step :
      (s : Getting)
      → IsTracked s
      → 0 < tokens
      → s.started < n ⊎ s.filled < tokens
      → (t : Getting) × GetStep n tokens answer s t
  get_step s v p h = elim (Bool-cases (ltb s.started n)) [
    | inl a ↦ elim (Bool-cases (ltb (length s.running) tokens)) [
      | inl b ↦ (_, start_get (ground (arith, a)) (ground (arith, b)) refl)
      | inr b ↦ end_some s s.running refl (ground (arith, b, p))
    ]
    | inr a ↦ elim (Bool-cases (ltb (length s.running + s.filled) tokens)) [
      | inl b ↦ (_, fill (ground (arith, a, v.in_range)) (ground (arith, b)) refl)
      | inr b ↦ end_some s s.running refl (ground (arith, a, b, h))
    ]
  ]

  left_less : {s t : Getting} → GetStep n tokens answer s t → IsTracked s → left t < left s
  left_less {s = s} (start_get l m e) v = subst (λ u. left u < left s) (sym e) (omega (arith, l))
  left_less {s = s} (end_get front back i p e) v =
      subst (λ u. left u < left s) (sym e)
        (omega (arith, ap length p, length-append front (i ∷ back), length-append front back))
  left_less {s = s} (fill l m e) v = subst (λ u. left u < left s) (sym e) (omega (arith, m))

  settled_or_open :
      (s : Getting) → IsTracked s → IsDone n tokens s ⊎ (s.started < n ⊎ s.filled < tokens)
  settled_or_open s v = elim (Bool-cases (ltb s.started n)) [
    | inl a ↦ inr (inl (ground (arith, a)))
    | inr a ↦ elim (Bool-cases (ltb s.filled tokens)) [
      | inl b ↦ inr (inr (ground (arith, b)))
      | inr b ↦ inl (ground (arith, a, v.in_range), ground (arith, b, v.fits))
    ]
  ]

  -- With a token at least, DoBulkGet always goes on until it returns, and it returns: every step leaves
  -- fewer to go, of the 2 n + tokens at the start.
  pub bulk_get_ends :
      {s : Getting}
      → GetReach n tokens answer s
      → 0 < tokens
      → (IsDone n tokens s ⊎ (t : Getting) × GetStep n tokens answer s t)
        × ((t : Getting) → GetStep n tokens answer s t → left t < left s)
  bulk_get_ends {s} r p =
      let v = GetReach-IsTracked r in
      (
        elim (settled_or_open s v) [ inl d ↦ inl d | inr h ↦ inr (get_step s v p h) ],
        λ t st. left_less st v,
      )
