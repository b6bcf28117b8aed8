-- ===== src/Tests.antt =====
-- Concrete runs of the model, and the theorems at concrete inputs.
pub mod Data
mod LoaderTests
mod BfsTests
mod PagerankTests
mod PullTests
mod FileTests
mod HubTests
mod ChasingTests
mod ReorderTests
mod SortTests
mod BandwidthTests
mod BarrierTests
mod ProgramTests
mod PebsTests
mod ChasingProgramTests
