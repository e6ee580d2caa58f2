-- ===== src/Policy.antt =====
-- pkg/policy over the resources of pkg/apis/policy/v1alpha1.
pub mod Resources
pub mod Client
pub mod Conflicts
