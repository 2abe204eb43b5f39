-- ===== src/ApCore.antt =====
-- packages/ap-core/src: the encodings of keys, signatures, and the documents that servers exchange. ApCore.Multikey also has
-- packages/ap-encryption/src/x25519-multikey.js, which differs in its two leading bytes.
pub mod Base58
pub mod Multikey
pub mod Signature
pub mod Webfinger
pub mod Resolve
pub mod Documents
