-- ===== src/DataApi.antt =====
-- launcher/internal/dataapi: the checks that every request passes, and the handlers.
pub mod Pipeline
pub mod Passing
pub mod Service
pub mod Bodies
pub mod Replies
pub mod Handlers
pub mod Branches
pub mod Steps
pub mod Access
pub mod Permits
pub mod Once
pub mod Saves
