-- ===== src/Postgresql.antt =====
-- common/component/postgresql/v1: the state store over PostgreSQL.
pub mod Condition
pub mod Query
pub mod Visitor
