-- ===== src/Servicebus/Subscription/Invariant.antt =====
-- common/component/azure/servicebus/subscription.go: what the counters of a subscription say of its
-- goroutines, whatever the interleaving.
use dapr_components_contrib.Prelude.{
  ℕ, ◌+◌, ◌-◌, ◌≤◌, List, [], ◌∷◌, ◌++◌, true, false, if◌then◌else◌, ◌≡◌, refl, sym, ap, ◌∙◌, subst,
  arith, All, Bool, length-append,
}
use dapr_components_contrib.Servicebus.Subscription.{Limits, Message}
use dapr_components_contrib.Servicebus.Subscription.System.{
  Stage, waiting, handling, leaving, removed, Goroutine, selecting, receiving, adding, operating,
  System, Step, receive_blocking, take_token, stop, receive_nothing, receive, add, skip, handle,
  go_handle, enter, take_handler, give_up, handled, release_handler, remove_messages, release_token,
  end_operation, Reach, here, next,
}
use dapr_components_contrib.Servicebus.Subscription.Counting.{
  total, total-append, token_of, holds, messages_of, held_by, All-out, All-into,
}

module _ (limits : Limits) where
  -- A handler runs without an entry in handleChan only if there is none.
  abbrev pub Fits : Stage → Type 0
  Fits waiting = Unit
  Fits (handling b) = if b then Unit else limits.max_handlers ≡ 0
  Fits (leaving b) = Unit
  Fits removed = Unit

  abbrev pub StageFits : Goroutine → Type 0
  StageFits selecting = Unit
  StageFits receiving = Unit
  StageFits (adding added msgs) = Unit
  StageFits (operating own msgs stage) = Fits stage

  abbrev pub Small : Goroutine → Type 0
  Small g = (messages_of g ≤ limits.max_bulk) × StageFits g

  pub record IsBounded (s : System) : Type 0 where
    pub counted : s.tokens ≡ total token_of s.goroutines
    pub within : s.tokens ≤ limits.capacity
    pub held : s.handlers ≡ total holds s.goroutines
    pub limited : s.handlers ≤ limits.max_handlers
    pub small : All Small s.goroutines

  -- One goroutine takes the place of another.
  replaced :
      (front back : List Goroutine) (a b : Goroutine) (s : System) (tokens handlers : ℕ)
      → (active : List (ℕ × Message)) (skipped : List Message) → IsBounded s
      → s.goroutines ≡ front ++ a ∷ back
      → (token_of a ≤ s.tokens → tokens + token_of a ≡ s.tokens + token_of b)
      → tokens ≤ limits.capacity
      → (holds a ≤ s.handlers → handlers + holds a ≡ s.handlers + holds b)
      → handlers ≤ limits.max_handlers
      → (Small a → Small b)
      → IsBounded (record {
        goroutines = front ++ b ∷ back;
        tokens = tokens;
        handlers = handlers;
        active = active;
        skipped = skipped;
      })
  replaced front back a b s tokens handlers active skipped i e p w q l f =
      let (was_small, rest) = All-out Small front back a (subst (All Small) e i.small) in
      let had = i.counted ∙ ap (total token_of) e ∙ total-append token_of front back a in
      let held = i.held ∙ ap (total holds) e ∙ total-append holds front back a in
      record {
        counted = omega (arith, p (omega (arith, had)), had, total-append token_of front back b);
        within = w;
        held = omega (arith, q (omega (arith, held)), held, total-append holds front back b);
        limited = l;
        small = All-into Small front back b (f was_small) rest;
      }

  -- A goroutine that holds no handler ends.
  ended :
      (front back : List Goroutine) (a : Goroutine) (s : System) (tokens : ℕ)
      → IsBounded s
      → s.goroutines ≡ front ++ a ∷ back
      → tokens ≡ s.tokens - token_of a
      → holds a ≡ 0
      → IsBounded (record s { goroutines = front ++ back; tokens = tokens })
  ended front back a s tokens i e p n =
      let (was_small, rest) = All-out Small front back a (subst (All Small) e i.small) in
      let had = i.counted ∙ ap (total token_of) e ∙ total-append token_of front back a in
      let held = i.held ∙ ap (total holds) e ∙ total-append holds front back a in
      record {
        counted = omega (arith, p, had);
        within = omega (arith, p, i.within);
        held = omega (arith, held, n);
        limited = i.limited;
        small = rest;
      }

  begun :
      (s : System) → IsBounded s → IsBounded (record s { goroutines = selecting ∷ s.goroutines })
  begun s i = record {
    counted = omega (arith, i.counted);
    within = i.within;
    held = omega (arith, i.held);
    limited = i.limited;
    small = ((omega arith, tt), i.small);
  }

  -- The stage of a call of handleMessages changes, and no handler is taken or released.
  staged :
      (front back : List Goroutine) (own : Bool) (msgs : List Message) (a b : Stage) (s : System)
      → (active : List (ℕ × Message)) → IsBounded s
      → s.goroutines ≡ front ++ operating own msgs a ∷ back
      → held_by a ≡ held_by b
      → Fits b
      → IsBounded (record s { goroutines = front ++ operating own msgs b ∷ back; active = active })
  staged front back own msgs a b s active i e p f =
      replaced front back (operating own msgs a) (operating own msgs b) s s.tokens s.handlers active
        s.skipped i e (λ h. refl) i.within (λ h. omega (arith, p)) i.limited (λ x. (x.0, f))

  IsBounded-step : (s t : System) → IsBounded s → Step limits s t → IsBounded t
  IsBounded-step s t i (receive_blocking p) = subst IsBounded (sym p) (begun s i)
  IsBounded-step s t i (take_token front back e h p) = subst IsBounded (sym p) (
      replaced front back selecting receiving s (s.tokens + 1) s.handlers s.active s.skipped i e
        (λ x. omega arith) (omega (arith, h)) (λ x. omega arith) i.limited (λ x. (omega arith, tt)))
  IsBounded-step s t i (stop front back e p) =
      subst IsBounded (sym p) (ended front back selecting s s.tokens i e (omega arith) refl)
  IsBounded-step s t i (receive_nothing front back e p) =
      subst IsBounded (sym p) (ended front back receiving s (s.tokens - 1) i e refl refl)
  IsBounded-step s t i (receive front back msgs e h b p) = subst IsBounded (sym p) (
      replaced front back receiving (adding [] msgs) s s.tokens s.handlers s.active s.skipped i e
        (λ x. refl) i.within (λ x. refl) i.limited (λ x. (omega (arith, b), tt)))
  IsBounded-step s t i (add front back added m msgs n e q p) = subst IsBounded (sym p) (
      replaced front back (adding added (m ∷ msgs)) (adding (added ++ m ∷ []) msgs) s s.tokens
        s.handlers _ s.skipped i e (λ x. refl) i.within (λ x. refl) i.limited
        (λ x. (omega (arith, x.0, length-append added (m ∷ [])), tt)))
  IsBounded-step s t i (skip front back added m msgs e q p) = subst IsBounded (sym p) (
      replaced front back (adding added (m ∷ msgs)) selecting s (s.tokens - 1) s.handlers s.active _
        i e (λ x. omega (arith, x)) (omega (arith, i.within)) (λ x. refl) i.limited
        (λ x. (omega arith, tt)))
  IsBounded-step s t i (handle front back msgs e h p) = subst IsBounded (sym p) (
      replaced front back (adding msgs []) (operating true msgs waiting) s s.tokens s.handlers
        s.active s.skipped i e (λ x. refl) i.within (λ x. refl) i.limited
        (λ x. (omega (arith, x.0), tt)))
  IsBounded-step s t i (go_handle front back msgs e h p) = subst IsBounded (sym p) (
      begun _ (
        replaced front back (adding msgs []) (operating false msgs waiting) s s.tokens s.handlers
          s.active s.skipped i e (λ x. refl) i.within (λ x. refl) i.limited
          (λ x. (omega (arith, x.0), tt))))
  IsBounded-step s t i (enter front back own msgs e h p) =
      subst IsBounded (sym p)
        (staged front back own msgs waiting (handling false) s s.active i e refl h)
  IsBounded-step s t i (take_handler front back own msgs e h p) = subst IsBounded (sym p) (
      replaced front back (operating own msgs waiting) (operating own msgs (handling true)) s
        s.tokens (s.handlers + 1) s.active s.skipped i e (λ x. refl) i.within (λ x. omega arith)
        (omega (arith, h)) (λ x. (x.0, tt)))
  IsBounded-step s t i (give_up front back own msgs e h p) =
      subst IsBounded (sym p)
        (staged front back own msgs waiting (leaving false) s s.active i e refl tt)
  IsBounded-step s t i (handled front back own msgs taken e p) =
      subst IsBounded (sym p)
        (staged front back own msgs (handling taken) (leaving taken) s s.active i e refl tt)
  IsBounded-step s t i (release_handler front back own msgs e p) = subst IsBounded (sym p) (
      replaced front back (operating own msgs (leaving true)) (operating own msgs (leaving false)) s
        s.tokens (s.handlers - 1) s.active s.skipped i e (λ x. refl) i.within
        (λ x. omega (arith, x)) (omega (arith, i.limited)) (λ x. (x.0, tt)))
  IsBounded-step s t i (remove_messages front back own msgs e p) =
      subst IsBounded (sym p) (staged front back own msgs (leaving false) removed s _ i e refl tt)
  IsBounded-step s t i (release_token front back msgs e p) = subst IsBounded (sym p) (
      replaced front back (operating true msgs removed) selecting s (s.tokens - 1) s.handlers
        s.active s.skipped i e (λ x. omega (arith, x)) (omega (arith, i.within)) (λ x. refl)
        i.limited (λ x. (omega arith, tt)))
  IsBounded-step s t i (end_operation front back msgs e p) =
      subst IsBounded (sym p)
        (ended front back (operating false msgs removed) s (s.tokens - 1) i e refl refl)

  pub IsBounded-Reach : (s : System) → Reach limits s → IsBounded s
  IsBounded-Reach _ here = record {
    counted = refl;
    within = omega arith;
    held = refl;
    limited = omega arith;
    small = tt;
  }
  IsBounded-Reach t (next {s} r st) = IsBounded-step s t (IsBounded-Reach s r) st
