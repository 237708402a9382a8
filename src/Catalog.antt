-- ===== src/Catalog.antt =====
-- The catalog context (internal/catalog): the videos of its domain layer.
pub mod Video
