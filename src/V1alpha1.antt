-- ===== src/V1alpha1.antt =====
-- The custom resources of api/v1alpha1: the types that the controllers read and write.
pub mod Policy
pub mod Fleet
pub mod Allocation
