-- ===== src/Danmaku.antt =====
-- The danmaku context (internal/danmaku): the history segments and video checks of its domain layer.
pub mod History
