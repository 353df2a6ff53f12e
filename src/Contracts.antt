-- ===== src/Contracts.antt =====
-- The boundary contracts of src/smokejumper/contracts.
pub mod Fingerprint
pub mod Json
pub mod Events
pub mod Conclusions
