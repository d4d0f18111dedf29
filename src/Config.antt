-- ===== src/Config.antt =====
-- The INI configuration store of src/rss_config.c.
pub mod Types
pub mod Store
pub mod Edit
pub mod Update
pub mod Lookup
pub mod Reads
pub mod Writes
pub mod Unique
pub mod Removal
pub mod Tidy
pub mod Invariant
pub mod Machine
pub mod Numbers
pub mod Load
pub mod Lines
pub mod Print
pub mod Plain
pub mod Classify
pub mod Surgical
pub mod Emit
pub mod Save
pub mod Emitted
pub mod Foreign
pub mod Binding
pub mod Kept
pub mod SaveLaws
pub mod OnDisk
pub mod Persisted
pub mod Readable
pub mod Printed
pub mod Reload
pub mod Reloaded
