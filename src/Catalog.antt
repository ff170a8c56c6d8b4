-- ===== src/Catalog.antt =====
-- runner/case_catalog.py: the catalog of case sets.
pub mod Values
pub mod Load
pub mod Valid
pub mod Accepted
pub mod Resolve
