-- ===== src/Static.antt =====
-- launcher/internal/static: byte ranges of the files that are served.
pub mod Range
pub mod Bounds
