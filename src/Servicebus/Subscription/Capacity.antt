-- ===== src/Servicebus/Subscription/Capacity.antt =====
-- common/component/azure/servicebus/subscription.go: the limits that NewSubscription computes.
use dapr_components_contrib.Prelude.{
  ◌*◌, ◌/◌, ◌≤◌, Option, some, none, ◌≡◌, arith, refl, ne→eq_false,
}
use native.Mathlib.Nat.{le-div_iff_mul-le, div-mul-le_self}
use dapr_components_contrib.Strconv.{ℤ, pos, negsuc}
use dapr_components_contrib.Servicebus.Subscription.{
  SubscriptionOptions, Limits, at_least_one, bulk_count, new_subscription, handler_count,
}

at_least_one_lem : (o : Option ℤ) → 1 ≤ at_least_one o
unfolding at_least_one
at_least_one_lem none = omega arith
at_least_one_lem (some (negsuc n)) = omega arith
at_least_one_lem (some (pos n)) = ground arith

bulk_count_lem :
    (opts : SubscriptionOptions)
    → (bulk_count opts ≤ opts.max_active_messages)
      × (1 ≤ opts.max_active_messages → 1 ≤ bulk_count opts)
unfolding bulk_count
bulk_count_lem opts = ground (arith, at_least_one_lem opts.max_bulk_sub_count)

-- With a MaxActiveMessages of 1 or more NewSubscription does not panic: a batch has from 1 to
-- MaxActiveMessages messages, an operation at least can be active, and the messages of as many
-- full batches as can be active are no more than MaxActiveMessages.
pub new_subscription_lem :
    (opts : SubscriptionOptions)
    → 1 ≤ opts.max_active_messages
    → (l : Limits) × (new_subscription opts ≡ some l)
      × (1 ≤ l.max_bulk)
      × (1 ≤ l.capacity)
      × (l.capacity * l.max_bulk ≤ opts.max_active_messages)
unfolding new_subscription
new_subscription_lem opts h =
    let (below, above) = bulk_count_lem opts in
    (
      record {
        max_bulk = bulk_count opts;
        capacity = opts.max_active_messages / bulk_count opts;
        max_handlers = handler_count opts.max_concurrent_handlers;
        require_sessions = opts.require_sessions;
      },
      rw (ne→eq_false (bulk_count opts) 0 (omega (arith, above h))) refl,
      above h,
      (le-div_iff_mul-le (above h)).1 (omega (arith, below)),
      div-mul-le_self opts.max_active_messages (bulk_count opts),
    )
