-- ===== src/State/Bulk/Writes.antt =====
-- What DoBulkSetDelete (state/bulk.go) reports: the errors of all the requests, and nothing else.
use mathlib.Core.List.{Memᴰ}
use mathlib.Core.List.Memᴰ.{append_left, append_right, append_cases, head, tail}
use dapr_components_contrib.Prelude.{
  ℕ, ◌+◌, ◌<◌, ◌≤◌, Option, none, some, List, [], ◌∷◌, ◌++◌, length, length-append, Bool-cases,
  Option-cases, ◌==◌, ◌≡◌, refl, ap, sym, subst, arith, ◌⊎◌, ◌↔◌, inl, inr,
}
use dapr_components_contrib.Strconv.{ℤ}
use dapr_components_contrib.State.Errors.{StateError}
use dapr_components_contrib.State.Bulk.{
  Storing, StoreStep, start_store, end_store, receive, StoreReach, store_begins, store_goes_on,
  join_errors,
}
use dapr_components_contrib.State.Bulk.Reads.{Runs, Runs-middle, Runs-keep, Runs-here, nothing-Runs}

module _ {A : Type 0} where
  -- membership when an entry is put in between, and when the first one goes to the end
  insert_cases :
      (x y : A) (front back : List A)
      → Memᴰ x ((front ++ y ∷ []) ++ back)
      → (x ≡ y) ⊎ Memᴰ x (front ++ back)
  insert_cases x y [] back (head e) = inl e
  insert_cases x y [] back (tail m) = inr m
  insert_cases x y (z ∷ front) back (head e) = inr (head e)
  insert_cases x y (z ∷ front) back (tail m) = elim (insert_cases x y front back m) [
    | inl e ↦ inl e
    | inr q ↦ inr (tail q)
  ]

  insert_same : (y : A) (front back : List A) → Memᴰ y ((front ++ y ∷ []) ++ back)
  insert_same y [] back = head refl
  insert_same y (z ∷ front) back = tail (insert_same y front back)

  insert_other :
      (x y : A) (front back : List A) → Memᴰ x (front ++ back) → Memᴰ x ((front ++ y ∷ []) ++ back)
  insert_other x y [] back m = tail m
  insert_other x y (z ∷ front) back (head e) = head e
  insert_other x y (z ∷ front) back (tail m) = tail (insert_other x y front back m)

  to_end :
      (x y : A) (rest xs : List A) → Memᴰ x ((y ∷ rest) ++ xs) → Memᴰ x (rest ++ (xs ++ y ∷ []))
  to_end x y rest xs (head e) = append_right rest (append_right xs (head e))
  to_end x y rest xs (tail m) = elim (append_cases rest m) [
    | inl q ↦ append_left (xs ++ y ∷ []) q
    | inr q ↦ append_right rest (append_left (y ∷ []) q)
  ]

  from_end :
      (x y : A) (rest xs : List A) → Memᴰ x (rest ++ (xs ++ y ∷ [])) → Memᴰ x ((y ∷ rest) ++ xs)
  from_end x y rest xs m = elim (append_cases rest m) [
    | inl q ↦ tail (append_left xs q)
    | inr q ↦ elim (append_cases xs q) [
      | inl p ↦ tail (append_right rest p)
      | inr (head e) ↦ head e
      | inr (tail p) ↦ absurd (elim p [ ])
    ]
  ]

past_empty : {A : Type 0} {x : A} (xs ys : List A) → length xs ≡ 0 → Memᴰ x (xs ++ ys) → Memᴰ x ys
past_empty [] ys e m = m
past_empty (z ∷ xs) ys e m = absurd (omega (arith, e))

not_empty : {A : Type 0} (x : A) → Memᴰ x [] → ⊥
not_empty x m = elim m [ ]

empty_of : {A : Type 0} (xs : List A) → ((x : A) → Memᴰ x xs → ⊥) → xs ≡ []
empty_of [] h = refl
empty_of (x ∷ xs) h = absurd (h x (head refl))

join_errors→Memᴰ :
    (x : StateError) (es : List (Option StateError)) → Memᴰ x (join_errors es) → Memᴰ (some x) es
unfolding join_errors
join_errors→Memᴰ x [] m = elim m [ ]
join_errors→Memᴰ x (none ∷ es) m = tail (join_errors→Memᴰ x es m)
join_errors→Memᴰ x (some y ∷ es) (head e) = head (ap some e)
join_errors→Memᴰ x (some y ∷ es) (tail m) = tail (join_errors→Memᴰ x es m)

Memᴰ→join_errors :
    (x : StateError) (es : List (Option StateError)) → Memᴰ (some x) es → Memᴰ x (join_errors es)
unfolding join_errors
Memᴰ→join_errors x [] m = elim m [ ]
Memᴰ→join_errors x (none ∷ es) (head e) = ground (arith, e)
Memᴰ→join_errors x (none ∷ es) (tail m) = Memᴰ→join_errors x es m
Memᴰ→join_errors x (some y ∷ es) (head e) = head (ground (arith, e))
Memᴰ→join_errors x (some y ∷ es) (tail m) = tail (Memᴰ→join_errors x es m)

module _ (n : ℕ) (parallelism : ℤ) (outcome : ℕ → Option StateError) where
  pub record IsSettled (s : Storing) : Type 0 where
    pub counted : s.started ≡ length s.running + length s.sent + length s.errs
    pub in_range : s.started ≤ n
    pub below : (j : ℕ) → Runs j s.running → j < n
    pub from :
        (e : Option StateError) → Memᴰ e (s.sent ++ s.errs) → (j : ℕ) × (j < n) × (outcome j ≡ e)
    pub tracked : (j : ℕ) → j < s.started → Runs j s.running ⊎ Memᴰ (outcome j) (s.sent ++ s.errs)

  StoreStep-IsSettled :
      {s t : Storing} → StoreStep n parallelism outcome s t → IsSettled s → IsSettled t
  StoreStep-IsSettled {s = s} (start_store l m e) v = subst IsSettled (sym e) (record {
    counted = omega (arith, v.counted);
    in_range = omega (arith, l);
    below = λ j r. elim r [ inl x ↦ subst (λ i. i < n) x l | inr q ↦ v.below j q ];
    from = v.from;
    tracked = λ j h. elim (Bool-cases (j == s.started)) [
      | inl x ↦ inl (inl (ground (arith, x)))
      | inr x ↦ elim (v.tracked j (ground (arith, x, h))) [ inl r ↦ inl (inr r) | inr q ↦ inr q ]
    ];
  })
  StoreStep-IsSettled {s = s} (end_store front back i p e) v = subst IsSettled (sym e) (record {
    counted = omega (
      arith,
      v.counted,
      ap length p,
      length-append front (i ∷ back),
      length-append front back,
      length-append s.sent (outcome i ∷ []),
    );
    in_range = v.in_range;
    below = λ j r. v.below j (subst (Runs j) (sym p) (Runs-keep j front back i r));
    from = λ y h. elim (insert_cases y (outcome i) s.sent s.errs h) [
      | inl q ↦ (i, v.below i (subst (Runs i) (sym p) (Runs-here front back i)), sym q)
      | inr q ↦ v.from y q
    ];
    tracked = λ j h. elim (v.tracked j h) [
      | inl r ↦ elim (Runs-middle j front back i (subst (Runs j) p r)) [
        | inl q ↦ inr (
            subst (λ k. Memᴰ (outcome k) ((s.sent ++ outcome i ∷ []) ++ s.errs)) q
              (insert_same (outcome i) s.sent s.errs))
        | inr q ↦ inl q
      ]
      | inr q ↦ inr (insert_other (outcome j) (outcome i) s.sent s.errs q)
    ];
  })
  StoreStep-IsSettled {s = s} (receive x rest l p m e) v = subst IsSettled (sym e) (record {
    counted = omega (arith, v.counted, ap length p, length-append s.errs (x ∷ []));
    in_range = v.in_range;
    below = v.below;
    from = λ y h. v.from y (subst (λ l. Memᴰ y (l ++ s.errs)) (sym p) (from_end y x rest s.errs h));
    tracked = λ j h. elim (v.tracked j h) [
      | inl r ↦ inl r
      | inr q ↦
          inr (to_end (outcome j) x rest s.errs (subst (λ l. Memᴰ (outcome j) (l ++ s.errs)) p q))
    ];
  })

  pub StoreReach-IsSettled : {s : Storing} → StoreReach n parallelism outcome s → IsSettled s
  StoreReach-IsSettled store_begins = record {
    counted = refl;
    in_range = omega arith;
    below = λ j r. absurd r;
    from = λ e m. absurd (elim m [ ]);
    tracked = λ j h. absurd (omega (arith, h));
  }
  StoreReach-IsSettled (store_goes_on r st) = StoreStep-IsSettled st (StoreReach-IsSettled r)

  sent_only :
      {s : Storing}
      → StoreReach n parallelism outcome s
      → (e : Option StateError) → Memᴰ e s.errs
      → (j : ℕ) × (j < n) × (outcome j ≡ e)
  sent_only {s} r e m = (StoreReach-IsSettled r).from e (append_right s.sent m)

  all_received :
      {s : Storing}
      → StoreReach n parallelism outcome s
      → length s.errs ≡ n
      → (j : ℕ) → j < n
      → Memᴰ (outcome j) s.errs
  all_received {s} r d j h =
      let v = StoreReach-IsSettled r in
      elim (v.tracked j (omega (arith, v.counted, v.in_range, d, h))) [
        | inl q ↦ absurd (nothing-Runs j s.running (omega (arith, v.counted, v.in_range, d)) q)
        | inr q ↦ past_empty s.sent s.errs (omega (arith, v.counted, v.in_range, d)) q
      ]

  -- When DoBulkSetDelete has read as many results as there are requests, the errors that it joins are those of
  -- the requests that failed, each with its key: it returns nil exactly when all succeeded.
  pub bulk_store_lem :
      {s : Storing}
      → StoreReach n parallelism outcome s
      → length s.errs ≡ n
      → ((x : StateError)
          → Memᴰ x (join_errors s.errs) ↔ ((j : ℕ) × (j < n) × (outcome j ≡ some x)))
        × ((join_errors s.errs ≡ []) ↔ ((j : ℕ) → j < n → outcome j ≡ none))
  bulk_store_lem {s} r d =
      let got = λ (x : StateError) (m : Memᴰ x (join_errors s.errs)).
        sent_only r (some x) (join_errors→Memᴰ x s.errs m) in
      (
        λ x. (
          got x,
          λ (j, h, e).
              Memᴰ→join_errors x s.errs (subst (λ o. Memᴰ o s.errs) e (all_received r d j h)),
        ),
        (
          λ e j h. elim (Option-cases (outcome j)) [
            | inl o ↦ o
            | inr (x, o) ↦ absurd (
                not_empty x (
                  subst (λ l. Memᴰ x l) e
                    (Memᴰ→join_errors x s.errs
                      (subst (λ o. Memᴰ o s.errs) o (all_received r d j h)))))
          ],
          λ h.
              empty_of (join_errors s.errs)
                λ x m. let (j, l, e) = got x m in absurd (ground (arith, h j l, e)),
        ),
      )
