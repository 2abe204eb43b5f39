-- ===== src/Core.antt =====
-- packages/core/src: the cursor encoding, the storage adapters and the event bus.
pub mod Cursor
pub mod Storage
pub mod Listing
pub mod JsMap
pub mod Memory
pub mod Volatile
pub mod Events
