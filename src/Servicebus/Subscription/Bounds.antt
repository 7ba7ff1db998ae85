-- ===== src/Servicebus/Subscription/Bounds.antt =====
-- common/component/azure/servicebus/subscription.go: how many messages and handlers are active at once.
use dapr_components_contrib.Prelude.{◌*◌, ◌≤◌, List, [], ◌∷◌, ◌≡◌, subst, arith, All, some}
use native.Mathlib.Nat.{add-mul, mul-le-mul_right}
use dapr_components_contrib.Servicebus.Subscription.{SubscriptionOptions, Limits, new_subscription}
use dapr_components_contrib.Servicebus.Subscription.Capacity.{new_subscription_lem}
use dapr_components_contrib.Servicebus.Subscription.System.{
  Goroutine, selecting, receiving, adding, operating, System, Reach,
}
use dapr_components_contrib.Servicebus.Subscription.Counting.{
  total, token_of, messages_of, in_progress,
}
use dapr_components_contrib.Servicebus.Subscription.Invariant.{Small, IsBounded-Reach}

module _ (limits : Limits) where
  messages_of_token :
      (g : Goroutine)
      → messages_of g ≤ limits.max_bulk
      → messages_of g ≤ token_of g * limits.max_bulk
  messages_of_token selecting h = omega arith
  messages_of_token receiving h = omega arith
  messages_of_token (adding added msgs) h = omega (arith, h)
  messages_of_token (operating own msgs stage) h = omega (arith, h)

  in_progress_lem :
      (gs : List Goroutine)
      → All (Small limits) gs
      → in_progress gs ≤ total token_of gs * limits.max_bulk
  in_progress_lem [] a = omega arith
  in_progress_lem (g ∷ gs) a = omega (
    arith,
    messages_of_token g a.0.0,
    in_progress_lem gs a.1,
    add-mul (token_of g) (total token_of gs) limits.max_bulk,
  )

  within_capacity :
      (s : System) → Reach limits s → in_progress s.goroutines ≤ limits.capacity * limits.max_bulk
  within_capacity s r =
      let i = IsBounded-Reach limits s r in
      omega (
        arith,
        in_progress_lem s.goroutines i.small,
        mul-le-mul_right {m = total token_of s.goroutines} {n = limits.capacity} limits.max_bulk
            (omega (arith, i.counted, i.within)),
      )

-- A subscription that NewSubscription makes with a MaxActiveMessages of 1 or more never has more messages
-- in progress than that, whatever the interleaving and however many calls of ReceiveBlocking are in
-- progress on it: a message counts from its receipt until handleMessages has given its token back.
pub in_progress-bounded :
    (opts : SubscriptionOptions) (limits : Limits) (s : System)
    → 1 ≤ opts.max_active_messages
    → new_subscription opts ≡ some limits
    → Reach limits s
    → in_progress s.goroutines ≤ opts.max_active_messages
in_progress-bounded opts limits s h e r =
    let (l, made, _, _, fits) = new_subscription_lem opts h in
    let same : l ≡ limits = ground (arith, made, e) in
    omega (
      arith,
      within_capacity limits s r,
      subst (λ (z : Limits). z.capacity * z.max_bulk ≤ opts.max_active_messages) same fits,
    )
