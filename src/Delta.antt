-- ===== src/Delta.antt =====
-- src/vgdelta.h and src/vgdelta.cpp: the data of a .vgdelta, the parser, the composition of chains and
-- the reader with its block cache.
pub mod Types
pub mod Zstd
pub mod Parse
pub mod Flat
pub mod Read
pub mod Stored
pub mod Content
pub mod Locate
pub mod Compose
pub mod Create
