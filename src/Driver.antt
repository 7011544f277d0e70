-- ===== src/Driver.antt =====
-- MiniMonFlt, the kernel-mode minifilter driver.
pub mod Status
pub mod Records
pub mod State
pub mod Port
pub mod Transaction
pub mod Dispatch
pub mod Modules
pub mod Stack
pub mod Memory
pub mod Capture
pub mod Routing
pub mod Entry
