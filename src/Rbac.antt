-- ===== src/Rbac.antt =====
-- internal/rbac: who may run which command on which key.
pub mod Bitset
pub mod Catalog
pub mod Role
pub mod Policy
pub mod AuthLog
pub mod Manager
