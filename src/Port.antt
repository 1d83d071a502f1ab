-- ===== src/Port.antt =====
-- launcher/internal/port: which TCP port the game is served on.
pub mod DenyList
pub mod Allocation
pub mod Scanning
pub mod Allocating
pub mod Parsing
