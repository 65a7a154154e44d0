-- ===== src/Overlay.antt =====
-- The overlay of src/overlay.h and src/overlay.cpp: layers, deletion masks, lookup.
pub mod Types
pub mod Layers
pub mod Masks
pub mod Kept
pub mod Resolve
pub mod Renames
pub mod Action
pub mod CopyUp
pub mod Config
pub mod Seed
pub mod Structure
