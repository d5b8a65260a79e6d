-- ===== src/Tests.antt =====
-- Concrete data for the parts of python/nano_ray, and the theorems at it.
mod Data
mod SchedulerTests
mod DagTests
mod StoreTests
mod TableTests
mod RuntimeTests
mod RecoveryTests
mod LivenessTests
mod HeadTests
mod WireTests
mod ApiTests
mod ActorTests
mod ClusterTests
mod ClientTests
mod ExampleTests
