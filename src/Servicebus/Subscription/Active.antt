-- ===== src/Servicebus/Subscription/Active.antt =====
-- common/component/azure/servicebus/subscription.go: the messages in activeMessages, whose locks are
-- renewed.
use dapr_components_contrib.Prelude.{
  ℕ, List, [], ◌∷◌, ◌++◌, some, Bool, true, false, ◌≡◌, refl, sym, subst, All, ◌⊎◌, inl, inr,
}
use mathlib.Core.List.{Memᴰ}
use mathlib.Core.List.Memᴰ.{head, append_left, append_right}
use dapr_components_contrib.Servicebus.Subscription.{Limits, Message}
use dapr_components_contrib.Servicebus.Subscription.System.{
  waiting, handling, leaving, removed, Goroutine, selecting, receiving, adding, operating, System,
  Step, receive_blocking, take_token, stop, receive_nothing, receive, add, skip, handle, go_handle,
  enter, take_handler, give_up, handled, release_handler, remove_messages, release_token,
  end_operation, Reach, here, next,
}
use dapr_components_contrib.Servicebus.Subscription.Entries.{
  Owns, Live, All-put_entry, All-mono, Live-out, Live-into, Free, All-remove_active,
}

-- An entry has the number of its message, which a goroutine has added and not removed yet, or which was added
-- by a batch that was skipped.
abbrev pub Held : List Goroutine → List Message → ℕ × Message → Type 0
Held gs skipped e = (e.1.sequence_number ≡ some e.0) × (Live gs e.1 ⊎ Memᴰ e.1 skipped)

abbrev Source : List Goroutine → List Message → Message → Type 0
Source gs skipped m = Live gs m ⊎ Memᴰ m skipped

-- What holds of the goroutine that a step changes goes over to the state after it.
moved :
    (front back gs gs' : List Goroutine) (a : Goroutine) (skipped skipped' : List Message)
    → gs ≡ front ++ a ∷ back
    → ((m : Message) → Owns a m → Source gs' skipped' m)
    → ((m : Message) → Live (front ++ back) m → Live gs' m)
    → ((m : Message) → Memᴰ m skipped → Memᴰ m skipped')
    → (x : ℕ × Message) → Held gs skipped x
    → Held gs' skipped' x
moved front back gs gs' a skipped skipped' e own others skips x (n, inl l) =
    elim (Live-out front back a x.1 (subst (λ gs. Live gs x.1) e l)) [
      | inl o ↦ (n, own x.1 o)
      | inr o ↦ (n, inl (others x.1 o))
    ]
moved front back gs gs' a skipped skipped' e own others skips x (n, inr k) = (n, inr (skips x.1 k))

-- One goroutine takes the place of another that owned no more.
replaced :
    (front back : List Goroutine) (a b : Goroutine) (s : System)
    → s.goroutines ≡ front ++ a ∷ back
    → ((m : Message) → Owns a m → Owns b m)
    → All (Held s.goroutines s.skipped) s.active
    → All (Held (front ++ b ∷ back) s.skipped) s.active
replaced front back a b s e own i =
    All-mono s.active
      (moved front back s.goroutines (front ++ b ∷ back) a s.skipped s.skipped e
        (λ m o. inl (Live-into front back b m (inl (own m o))))
        (λ m l. Live-into front back b m (inr l)) (λ m k. k))
      i

ended :
    (front back : List Goroutine) (a : Goroutine) (s : System)
    → s.goroutines ≡ front ++ a ∷ back
    → ((m : Message) → Owns a m → ⊥)
    → All (Held s.goroutines s.skipped) s.active
    → All (Held (front ++ back) s.skipped) s.active
ended front back a s e own i =
    All-mono s.active
      (moved front back s.goroutines (front ++ back) a s.skipped s.skipped e
        (λ m o. absurd (own m o)) (λ m l. l) (λ m k. k))
      i

-- After the messages of a call of handleMessages are removed, what is left belongs to the others.
cleared :
    (front back : List Goroutine) (own : Bool) (msgs : List Message) (s : System) (x : ℕ × Message)
    → s.goroutines ≡ front ++ operating own msgs (leaving false) ∷ back
    → Held s.goroutines s.skipped x
    → Free msgs x.0
    → Held (front ++ operating own msgs removed ∷ back) s.skipped x
cleared front back own msgs s x e (n, inr k) free = (n, inr k)
cleared front back own msgs s x e (n, inl l) free =
    elim (Live-out front back (operating own msgs (leaving false)) x.1
      (subst (λ gs. Live gs x.1) e l)) [
        | inl o ↦ absurd (free x.1 o.1 n)
        | inr o ↦ (n, inl (Live-into front back (operating own msgs removed) x.1 (inr o)))
      ]

module _ (limits : Limits) where
  abbrev AllHeld : System → Type 0
  AllHeld s = All (Held s.goroutines s.skipped) s.active

  begun : (s : System) → AllHeld s → AllHeld (record s { goroutines = selecting ∷ s.goroutines })
  begun s i = All-mono s.active (λ x h. (h.0, elim h.1 [ inl l ↦ inl (inr l) | inr k ↦ inr k ])) i

  AllHeld-step : (s t : System) → AllHeld s → Step limits s t → AllHeld t
  AllHeld-step s t i (receive_blocking p) = subst AllHeld (sym p) (begun s i)
  AllHeld-step s t i (take_token front back e h p) =
      subst AllHeld (sym p) (replaced front back selecting receiving s e (λ m o. o) i)
  AllHeld-step s t i (stop front back e p) =
      subst AllHeld (sym p) (ended front back selecting s e (λ m o. o) i)
  AllHeld-step s t i (receive_nothing front back e p) =
      subst AllHeld (sym p) (ended front back receiving s e (λ m o. o) i)
  AllHeld-step s t i (receive front back msgs e h b p) =
      subst AllHeld (sym p) (replaced front back receiving (adding [] msgs) s e (λ m o. absurd o) i)
  AllHeld-step s t i (add front back added m msgs n e q p) =
      let b = adding (added ++ m ∷ []) msgs in
      subst AllHeld (sym p) (
        All-put_entry (Held (front ++ b ∷ back) s.skipped) n m s.active
          (q, inl (Live-into front back b m (inl (append_right added (head refl)))))
          (replaced front back (adding added (m ∷ msgs)) b s e (λ x o. append_left _ o) i))
  AllHeld-step s t i (skip front back added m msgs e q p) = subst AllHeld (sym p) (
      All-mono s.active
        (moved front back s.goroutines (front ++ selecting ∷ back) (adding added (m ∷ msgs))
          s.skipped (added ++ s.skipped) e (λ x o. inr (append_left _ o))
          (λ x l. Live-into front back selecting x (inr l)) (λ x k. append_right added k))
        i)
  AllHeld-step s t i (handle front back msgs e h p) =
      subst AllHeld (sym p)
        (replaced front back (adding msgs []) (operating true msgs waiting) s e (λ x o. (tt, o)) i)
  AllHeld-step s t i (go_handle front back msgs e h p) = subst AllHeld (sym p) (
      begun (record s { goroutines = front ++ operating false msgs waiting ∷ back })
        (replaced front back (adding msgs []) (operating false msgs waiting) s e (λ x o. (tt, o))
          i))
  AllHeld-step s t i (enter front back own msgs e h p) = subst AllHeld (sym p) (
      replaced front back (operating own msgs waiting) (operating own msgs (handling false)) s e
        (λ x o. o) i)
  AllHeld-step s t i (take_handler front back own msgs e h p) = subst AllHeld (sym p) (
      replaced front back (operating own msgs waiting) (operating own msgs (handling true)) s e
        (λ x o. o) i)
  AllHeld-step s t i (give_up front back own msgs e h p) = subst AllHeld (sym p) (
      replaced front back (operating own msgs waiting) (operating own msgs (leaving false)) s e
        (λ x o. o) i)
  AllHeld-step s t i (handled front back own msgs taken e p) = subst AllHeld (sym p) (
      replaced front back (operating own msgs (handling taken)) (operating own msgs (leaving taken))
        s e (λ x o. o) i)
  AllHeld-step s t i (release_handler front back own msgs e p) = subst AllHeld (sym p) (
      replaced front back (operating own msgs (leaving true)) (operating own msgs (leaving false)) s
        e (λ x o. o) i)
  AllHeld-step s t i (remove_messages front back own msgs e p) = subst AllHeld (sym p) (
      All-mono _ (λ x q. cleared front back own msgs s x e q.0 q.1)
        (All-remove_active (Held s.goroutines s.skipped) msgs s.active i))
  AllHeld-step s t i (release_token front back msgs e p) =
      subst AllHeld (sym p)
        (replaced front back (operating true msgs removed) selecting s e (λ x o. o.0) i)
  AllHeld-step s t i (end_operation front back msgs e p) =
      subst AllHeld (sym p) (ended front back (operating false msgs removed) s e (λ x o. o.0) i)

  -- Whatever the interleaving and however many calls of ReceiveBlocking are in progress, an entry of
  -- activeMessages has the number of its message, and that message was added by a goroutine that has not
  -- removed it yet, or by a batch that was skipped for a message without a number.
  pub active-Held : (s : System) → Reach limits s → All (Held s.goroutines s.skipped) s.active
  active-Held _ here = tt
  active-Held t (next {s} r st) = AllHeld-step s t (active-Held s r) st
