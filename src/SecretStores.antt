-- ===== src/SecretStores.antt =====
-- secretstores: the secret stores that need no outside service.
pub mod Env
pub mod File
