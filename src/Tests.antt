-- ===== src/Tests.antt =====
-- Tests: the theorems applied at concrete data, on a database in memory.
mod Fixtures
mod ServiceFixtures
mod ServiceTests
mod IntakeTests
mod RunsTests
mod ChangesTests
