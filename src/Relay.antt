-- ===== src/Relay.antt =====
-- packages/relay/src: the registry of local actors, the realtime bridge, the routes, the answer to a
-- Follow, and the local actors' first start.
pub mod Registry
pub mod Bridge
pub mod Replies
pub mod Paths
pub mod Router
pub mod Accepts
pub mod LocalIdentity
