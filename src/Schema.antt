-- ===== src/Schema.antt =====
-- The schema types of the directory schema/ and their operations: unserialization, validation,
-- serialization, and the linking of references.
pub mod Types
pub mod Scalar
pub mod List
pub mod Pattern
pub mod Map
pub mod Any
pub mod Object
pub mod OneOf
pub mod Compatibility
pub mod Namespace
pub mod Units
pub mod Function
pub mod Sound
pub mod Tree
pub mod Scope
pub mod Describe
