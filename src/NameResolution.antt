-- ===== src/NameResolution.antt =====
-- The packages of nameresolution/.
pub mod Mdns
