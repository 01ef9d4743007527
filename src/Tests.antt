-- ===== src/Tests.antt =====
-- Runs of the definitions on concrete inputs, and the theorems at inputs that meet their
-- hypotheses.
mod Data
mod RouterTests
mod McRouterTests
mod InfraredTests
mod RuntimeTests
mod DiscoveryTests
mod RetryTests
mod PelicanTests
mod AtomicTests
mod StoreTests
mod PolicyTests
mod SetupTests
mod HttpTests
mod AccessTests
mod AppTests
mod ClientTests
mod MigrateTests
