-- ===== src/Examples.antt =====
-- Tests: the theorems at concrete inputs, one module for each part of the program.
pub mod Limits
pub mod Pools
pub mod Rules
pub mod Accounts
pub mod Clients
pub mod Settings
pub mod Requests
pub mod Changes
