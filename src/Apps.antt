-- ===== src/Apps.antt =====
-- The sample programs of apps/: a primary that chases pointers, and a scavenger that computes.
pub mod Ptrchase
pub mod Compute
pub mod Template
pub mod Stamp
