-- ===== src/Update.antt =====
-- launcher/internal/update: installing a downloaded release.
pub mod Archive
pub mod Download
pub mod ConfigMerge
pub mod Version
pub mod Disk
pub mod Swap
pub mod Recover
pub mod Safety
pub mod Retention
pub mod Pending
pub mod Progress
pub mod World
pub mod Reports
pub mod Install
pub mod Apply
pub mod Startup
pub mod Budget
pub mod Intent
