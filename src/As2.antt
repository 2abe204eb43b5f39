-- ===== src/As2.antt =====
-- packages/as2/src: vocabulary, addressing, ids and canonical text of ActivityStreams documents.
pub mod Value
pub mod Vocabulary
pub mod Audience
pub mod Id
pub mod Canonical
