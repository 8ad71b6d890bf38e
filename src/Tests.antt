-- ===== src/Tests.antt =====
-- The theorems at concrete inputs, and runs of the definitions.
mod ConfigFiles
mod ConfigTests
mod CallTests
mod ServerTests
mod PoolTests
mod ManagerTests
mod BusyHour
mod CommandTests
mod ClientTests
