-- ===== src/Lib.antt =====
-- A verification library for the prompt cache storage. The repository has two programs.
--
-- index_layer keeps, in memory, which prefixes of a text have their computed state in an object
-- store. `PrefixMap` (index_layer/src/cache.h, cache.cc) hashes every prefix of whole blocks of tokens
-- and maps the hash to an entry with the object's id and how many of its bytes serve the prefix. It
-- writes and reads the objects through the abstract class `Storage`, which `S3Storage`
-- (s3_storage.cc) implements by requests to the other program.
--
-- s3_rocksdb_gateway is an object store with the interface of S3. `RocksObjectStore` (storage.cpp)
-- keeps buckets, data and metadata under NUL-separated keys of RocksDB; `Api` (s3_api.cpp) answers
-- requests from it once `verify_sigv4` (sigv4.cpp) has let them in, and `Metrics` (metrics.cpp) counts what happens.
--
-- Files and code:
--   IndexLayer/Storage.antt       index_layer/src/cache.h: `Storage` as an interface
--   IndexLayer/Run.antt           how a call ends: with a result, in an overflow of `int` or without
--                                 enough fuel
--   IndexLayer/Hash.antt          cache.cc: `HashTokens`, `HashBytesHex`; proofs in Hash/
--   IndexLayer/Cache.antt         cache.cc: `Store`, `Lookup`, `Load`, `UsableBytes` as `store`,
--                                 `look_up`, `load`, `usable_bytes`; proofs and tests in Cache/
--   IndexLayer/S3Storage.antt     s3_storage.h, s3_storage.cc over libcurl; S3Storage/Served.antt puts the
--                                 gateway behind it
--   IndexLayer/System.antt        `PrefixMap` on `S3Storage` on the gateway
--   IndexLayer/Main.antt          index_layer/src/main.cpp: the command line; Main/Args.antt reads the arguments,
--                                 Main/File.antt the files; proofs in Main/
--   Gateway/Util/                 s3_rocksdb_gateway/src/util.cpp: percent coding, query strings, white
--                                 space, hexadecimal digits, the comparison in constant time, base64
--   Gateway/Http.antt             the requests and responses of Boost.Beast as records
--   Gateway/Auth.antt             sigv4.hpp, sigv4.cpp: `verify_sigv4`; Auth/Parse.antt reads the field
--                                 Authorization and the query, Auth/Canonical.antt is the canonical
--                                 request and its signature, which Auth/Signature.antt says once more
--                                 in the words of AWS; proofs in Auth/Accepted.antt and Auth/Signed
--   Gateway/Metrics.antt          metrics.hpp, metrics.cpp; `RenderPrometheus` in Metrics/Render.antt, the proofs in
--                                 Metrics/
--   Gateway/Storage/Keys.antt     storage.cpp: the keys, `contains_nul`
--   Gateway/Storage/Meta.antt     storage.cpp: `encode_meta`, `decode_meta`
--   Gateway/Storage/Rocks.antt    RocksDB and the clocks as a parameter `Rocks`, and what they document
--                                 as `RocksLaws`; Rocks/Reference.antt is a database that meets them
--   Gateway/Storage/Env.antt      the state of a call, and calls of RocksDB with their measurement
--   Gateway/Storage/Store.antt    the methods of `RocksObjectStore` under their own names; proofs and
--                                 tests in Store/
--   Gateway/Storage/Listing.antt  storage.cpp: `list_objects_v2`; the proofs in Listing/
--   Gateway/Api/Range.antt        s3_api.cpp: `parse_single_range`
--   Gateway/Api/Reply.antt        s3_api.cpp: the responses, `xml_escape`, `map_storage_error`
--   Gateway/Api/Target.antt       s3_api.cpp: `parse_target`, `bucket_from_host`
--   Gateway/Api/Responses.antt    s3_api.cpp: the bodies and fields of its responses
--   Gateway/Api/Handle.antt       s3_api.cpp: `Api::handle` as `handle`, a function for each branch; the
--                                 proofs in Handle/
--   Gateway/Server.antt           http_server.cpp: the sessions as a step relation;
--                                 Server/Listener.antt is the constructor of `Listener` and the limit on bodies,
--                                 Server/Exchange.antt what one request to a session is answered with
--   Gateway/Main.antt             s3_rocksdb_gateway/src/main.cpp: from the parsed options to the settings of the
--                                 server; proofs in Main/Bounds.antt
--   Prelude.antt and Prelude/     numbers, texts as lists of bytes, `std::to_string`,
--                                 `std::from_chars`, association lists
--
-- Integers: an `int` or `int64_t` is ℤ, and where a sum or product of `int`s can overflow the model
-- says so (`overflow`); conversions between signed and unsigned wrap around as they do in the code, and
-- the counters of `Metrics` count modulo 2^64. `PrefixMap::version_clock_` is unbounded here.
--
-- Fuel: the loops of `Store` and `Lookup` advance by the block size, so one round more than there are
-- tokens is enough when the block size is positive; the theorems on them ask for that much.
--
-- Parameters: `std::hash<std::string>` (any function), `double` (any operations), `Storage` behind the
-- prefix map, the file streams of the command line (`Files`), the clocks and how a date is printed,
-- libcurl (`Curl`), what Beast makes of a connection, Boost.Program_options, the digests of OpenSSL
-- (`Crypto`) and its blocks of base64 (`Evp`, with what it documents as `EvpLaws`), and RocksDB. The
-- record `RocksLaws` states what RocksDB documents, `IsReliable` that it does not fail, `IsServed` that a
-- network carries the PUT and GET requests of this client for objects whose names stand in a path as they
-- are to a session of the gateway's server, whose answer comes back, and `GivesHandles` that libcurl
-- gives handles. What libcurl prints to the standard output, where no write callback is set, is in the
-- state of the client.
--
-- Not modelled: the sockets of http_server.cpp, the options of Boost.Program_options and the
-- tuning of RocksDB in the gateway's main.cpp, and the tests and tools. A call
-- is one step of the model: calls that overlap in several threads are not.
mod Prelude
pub mod IndexLayer
pub mod Gateway
