-- ===== src/Servicebus.antt =====
-- common/component/azure/servicebus: what the components over Azure Service Bus share.
pub mod Subscription
