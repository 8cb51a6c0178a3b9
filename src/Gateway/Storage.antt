-- ===== src/Gateway/Storage.antt =====
-- s3_rocksdb_gateway/src/storage.hpp and storage.cpp: the class `RocksObjectStore`.
pub mod Keys
pub mod Meta
pub mod Rocks
pub mod Env
pub mod Store
pub mod Listing
