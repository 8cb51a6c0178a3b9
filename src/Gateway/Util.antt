-- ===== src/Gateway/Util.antt =====
-- s3_rocksdb_gateway/src/util.cpp: the helpers on text.
pub mod Base64
pub mod Hex
pub mod Percent
pub mod Query
pub mod Whitespace
