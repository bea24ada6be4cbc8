-- ===== src/Hardware.antt =====
-- ocpdiag/core/hwinterface: the configuration of a node, its client, and the host backend.
pub mod Status
pub mod Config
pub mod Client
pub mod Host
pub mod Identifier
pub mod Flags
pub mod Polling
pub mod Process
pub mod Command
pub mod Remote
pub mod Storage
pub mod Cpu
pub mod Errors
pub mod Memory
pub mod Backend
