-- ===== src/Runs.antt =====
-- Runs of the modelled code on small inputs, and uses of its theorems there.
mod Files
mod Host
mod Deltas
mod Overlays
mod Sources
mod Marks
mod Reads
