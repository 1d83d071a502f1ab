-- ===== src/Storage.antt =====
-- launcher/internal/storage: the save slots and the settings of a game.
pub mod Text
pub mod Json
pub mod Types
pub mod Identifier
pub mod Atomic
pub mod Slots
pub mod Settings
pub mod Mods
pub mod Listing
pub mod Upkeep
pub mod Engine
