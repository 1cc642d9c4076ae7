-- ===== src/FileSystem/Operations.antt =====
-- The operations of src/kernel/filesystem.c on a well-formed file system: no fault, the result, and
-- a well-formed state afterwards.
pub mod Steps
pub mod Delete
pub mod Write
pub mod Texts
pub mod Making
pub mod Placing
pub mod Copied
pub mod Moved
pub mod Files
pub mod Removal
pub mod Contents
pub mod Copy
pub mod Change
pub mod Adding
pub mod Initial
