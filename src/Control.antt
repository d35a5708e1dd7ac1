-- ===== src/Control.antt =====
-- core/control_data and the control flows that use it: harts, confidential VMs and their store.
pub mod Requests
pub mod ConfidentialHart
pub mod HardwareHart
pub mod Declassify
pub mod ConfidentialVm
pub mod Storage
pub mod Exits
pub mod Handlers
pub mod Sharing
pub mod Emulation
pub mod Dispatch
pub mod Flow
pub mod Promotion
pub mod Router
pub mod Runs
pub mod Protection
mod Samples
mod Tests
mod FlowTests
mod RouterTests
