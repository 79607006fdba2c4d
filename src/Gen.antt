-- ===== src/Gen.antt =====
-- internal/gen: the generator that writes the resource files from the OpenAPI document of uapi.
pub mod Made
pub mod Names
pub mod Spec
pub mod Field
pub mod Scope
pub mod Document
pub mod Render
pub mod Attributes
pub mod Written
