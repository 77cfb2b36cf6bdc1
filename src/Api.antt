-- ===== src/Api.antt =====
-- The API types, mycelium/api/v1alpha1: a module for each *_types.go file, with the generated deep
-- copies (zz_generated.deepcopy.go) of its types in a child.
pub mod Gvk
pub mod Status
pub mod Agent
pub mod Authorizer
pub mod CredentialProvider
pub mod Ecosystem
pub mod Tool
pub mod Isolation
