-- ===== src/Admission.antt =====
-- The validation that the `+kubebuilder:validation` markers of mycelium/api/v1alpha1/*_types.go
-- declare, which the API server runs before it stores a resource: a Boolean test for each type.
pub mod Format
pub mod Tool
pub mod CredentialProvider
pub mod Authorizer
pub mod Agent
