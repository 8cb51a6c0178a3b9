-- ===== src/Gateway.antt =====
-- s3_rocksdb_gateway/src: the S3 front end over RocksDB.
pub mod Util
pub mod Http
pub mod Auth
pub mod Metrics
pub mod Storage
pub mod Api
pub mod Server
mod Tests
pub mod Main
