-- ===== src/Copiers.antt =====
-- copiers/: who gets an account on a copier, and whose copies its meters count.
pub mod OrgUnits
pub mod Provisioning
pub mod DeviceOwner
pub mod AccountCounters
mod Tests
