-- ===== src/Store.antt =====
-- The policy store of the control database: Control-DB/zerotrace/policy/store.py, the parsing of
-- schema.py, and exceptions.py.
pub mod Documents
pub mod Blobs
pub mod Rows
pub mod Load
pub mod Publish
pub mod Stored
pub mod Versions
pub mod Coherent
pub mod Current
pub mod Published
pub mod Lasting
pub mod Exceptions
pub mod Approved
mod Tests
