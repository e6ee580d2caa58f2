-- ===== src/Validator.antt =====
-- pkg/validator/validators.go: the admission of custom resources.
pub mod Backends
pub mod Sources
pub mod References
pub mod Laws
