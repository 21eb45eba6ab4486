-- ===== src/Application.antt =====
-- volume/application.go: the business operations, over any database and any storage backend.
pub mod World
pub mod Safety
pub mod Operations
pub mod Retry
pub mod History
pub mod Local
pub mod Mocked
pub mod Race
pub mod Interleaved
