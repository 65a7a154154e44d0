-- ===== src/Vfs.antt =====
-- The file operations of src/vfsops.h and src/vfsops.cpp, over the overlay's state and the host's.
pub mod Types
pub mod Children
pub mod Attributes
pub mod Files
pub mod Folders
pub mod Moves
pub mod Requests
pub mod Keeps
pub mod Deletes
pub mod Makes
pub mod Listing
pub mod NoWritelayer
pub mod Reads
