-- ===== src/Tests.antt =====
-- Concrete settings, and the theorems at concrete inputs.
mod Fixtures
mod Witnesses
mod Startup
mod Http
mod Events
mod Configuration
mod Finishes
mod Nvmeof
mod Process
mod Ceph
mod Postgres
mod Race
mod Middleware
mod Interleaved
mod Routes
