-- ===== src/Policy.antt =====
-- policy/: documents, layers and their loading
pub mod Model
pub mod Layers
pub mod Merged
pub mod Tightens
pub mod Load
