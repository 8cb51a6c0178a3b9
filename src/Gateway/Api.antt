-- ===== src/Gateway/Api.antt =====
-- s3_rocksdb_gateway/src/s3_api.hpp and s3_api.cpp: the request handler.
pub mod Range
pub mod Reply
pub mod Target
pub mod Responses
pub mod Handle
mod Tests
