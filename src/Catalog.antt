-- ===== src/Catalog.antt =====
-- src/oep_client/catalog.py: the forms of discovery by name.
pub mod SortedSet
pub mod Bitmap
pub mod Describe
pub mod Entries
pub mod Writers
pub mod Examples
