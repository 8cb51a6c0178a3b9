-- ===== src/IndexLayer.antt =====
-- index_layer/src: the prefix map, its hashes and the storage behind it.
pub mod Run
pub mod Hash
pub mod Storage
pub mod Cache
pub mod S3Storage
pub mod System
pub mod Main
