-- ===== src/PubSub.antt =====
-- The packages of pubsub/.
pub mod InMemory
pub mod Envelope
