-- ===== src/Tests.antt =====
-- Concrete runs of the model, and the theorems applied to them.
pub mod Samples
pub mod Schema
pub mod Compatibility
pub mod Namespace
pub mod Scopes
pub mod Units
pub mod Function
pub mod Client
pub mod Server
pub mod Link
pub mod Step
