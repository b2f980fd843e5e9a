-- ===== src/Vif.antt =====
-- Interfaces, src/lib/target/src/vif.c, in the build for HALs before version 3 phase 2: the
-- children have the access lists, the security, the state, the configuration and the updates.
pub mod Types
pub mod Security
pub mod Acl
pub mod State
pub mod Config
pub mod Columns
pub mod Pushed
pub mod Kept
pub mod Reports
pub mod Resync
pub mod Deferred
mod Tests
pub mod External
pub mod Station
pub mod Events
pub mod EventOrder
