-- ===== src/Provider.antt =====
-- internal/provider: the Terraform provider. `Values` converts between JSON objects and attributes,
-- `Delta` is the merge patch of an update, `FieldScope` the fields that a discriminator excludes,
-- `Crud`, `Singleton` and `DataSource` the generated handlers, `Import` the import with adoption, `WriteError` the diagnostics of
-- failed writes, and `Configure` the provider's own configuration.
pub mod Print
pub mod Values
pub mod Delta
pub mod FieldScope
pub mod WriteError
pub mod Import
pub mod Configure
pub mod Crud
pub mod Reported
pub mod Singleton
pub mod DataSource
pub mod Schema
