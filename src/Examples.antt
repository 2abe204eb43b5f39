-- ===== src/Examples.antt =====
-- The theorems at concrete inputs, in children by part.
mod Cursors
mod Storage
mod Notes
mod Watches
mod Inbox
mod Documents
mod Deliveries
mod Members
mod Keys
mod Bridges
mod Clients
mod Requests
mod Routes
mod Streams
mod Events
mod Files
mod Identities
mod Follows
