-- ===== src/Tests.antt =====
-- The theorems of the other modules, applied at concrete inputs.
mod Fixtures
mod SetupFixtures
mod SetupTests
mod AdkgTests
mod DkgTests
mod SigningTests
mod NetworkTests
mod CodecTests
mod StartupTests
mod CeremonyTests
mod ClusterTests
mod GossipTests
mod TaprootTests
