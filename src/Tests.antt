-- ===== src/Tests.antt =====
-- The theorems at concrete inputs, and runs of the models.
mod JsonModel
mod WireTests
pub mod Fixtures
mod SessionTests
mod ReaderTests
pub mod ConnectionTests
pub mod ReplicaTests
mod ConntrackTests
mod ClientTests
mod ServerTests
mod ListModel
mod ListTests
mod WindowTests
