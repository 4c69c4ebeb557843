-- ===== src/Schema/Describe.antt =====
-- schema/schema_schema.go: the schema of schemas, by which schemas are sent and received.
pub mod Types
pub mod Objects
pub mod Steps
pub mod Scopes
pub mod Coverage
pub mod Bounds
