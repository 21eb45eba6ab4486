-- ===== src/Repository.antt =====
-- volume/repository: the database that the application is given.
pub mod InMemory
pub mod Postgres
