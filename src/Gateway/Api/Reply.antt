-- ===== src/Gateway/Api/Reply.antt =====
-- The responses: `xml_escape`, `make_xml_response`, `make_empty_response`, `s3_error` and
-- `map_storage_error`.
pub mod Escape
use prompt_cache_storage.Prelude.{
  ℕ, ◌-◌, ◌+◌, Bool, true, false, ◌||◌, Option, none, some, List, [], ◌∷◌, ◌++◌, Bytes, codes, beq,
  ◌==◌, if◌then◌else◌, length,
}
use prompt_cache_storage.Prelude.Text.{strip_prefix}
use prompt_cache_storage.Gateway.Http.{Response}

-- What the lines of the `switch` append for one byte.
unfoldable pub escape_byte : ℕ → Bytes
escape_byte c =
    if c == b'&'
    then codes "&amp;"
    else if c == b'<'
    then codes "&lt;"
    else if c == b'>'
    then codes "&gt;"
    else if c == b'"'
    then codes "&quot;"
    else if c == b'\''
    then codes "&apos;"
    else c ∷ []

unfoldable pub xml_escape : Bytes → Bytes
unfolding escape_byte
xml_escape [] = []
xml_escape (c ∷ s) = escape_byte c ++ xml_escape s

-- `<name>text</name>`, the text as it stands.
pub element : Bytes → Bytes → Bytes
element name text = b'<' ∷ (name ++ (b'>' ∷ (text ++ (codes "</" ++ (name ++ (b'>' ∷ []))))))

-- What every response of one call shares: `request_id`, `keep_alive` and `version`.
pub record Call : Type 0 where
  pub request_id : Bytes
  pub keep_alive : Bool
  pub version : ℕ

abbrev pub server_field : Bytes × Bytes
server_field = (codes "Server", codes "s3_rocksdb_gateway")

unfoldable pub make_xml_response : ℕ → Bytes → Call → Response
make_xml_response status body_xml call = record {
  status = status;
  version = call.version;
  keep_alive = call.keep_alive;
  content_length = length body_xml;
  headers = server_field ∷ (codes "Content-Type", codes "application/xml") ∷ [];
  body = body_xml;
}

unfoldable pub make_empty_response : ℕ → Call → Response
make_empty_response status call = record {
  status = status;
  version = call.version;
  keep_alive = call.keep_alive;
  content_length = 0;
  headers = server_field ∷ [];
  body = [];
}

abbrev pub xml_head : Bytes
xml_head = codes "<?xml version=\"1.0\" encoding=\"UTF-8\"?>"

unfoldable pub s3_error : ℕ → Bytes → Bytes → Bytes → Call → Response
unfolding make_xml_response element
s3_error status code message resource call =
    make_xml_response status
      (xml_head
        ++ element (codes "Error") (
            element (codes "Code") (xml_escape code)
            ++ (element (codes "Message") (xml_escape message)
                ++ (element (codes "Resource") (xml_escape resource)
                    ++ element (codes "RequestId") (xml_escape call.request_id)))))
      call

-- Whether a prefix is there: `rfind(p, 0) == 0`
starts : Bytes → Bytes → Bool
starts p s = elim (strip_prefix p s) [ none ↦ false | some _ ↦ true ]

-- `find(p) != npos`, for a text `p` that is not empty.
contains : Bytes → Bytes → Bool
unfolding starts
contains p [] = false
contains p (c ∷ s) = starts p (c ∷ s) || contains p s

-- The status and the code.
unfoldable pub map_storage_error : Bytes → ℕ × Bytes
unfolding starts contains
map_storage_error err =
    if beq err (codes "NoSuchBucket")
    then (404, codes "NoSuchBucket")
    else if beq err (codes "NoSuchKey")
    then (404, codes "NoSuchKey")
    else if beq err (codes "BucketNotEmpty")
    then (409, codes "BucketNotEmpty")
    else if starts (codes "Invalid") err
    then (400, codes "InvalidRequest")
    else if contains (codes "Invalid continuation-token") err
    then (400, codes "InvalidRequest")
    else (500, codes "InternalError")

-- `auto [st, code] = map_storage_error(err)` and the response, with `err` as the message unless the code
-- is `special`, whose message is fixed.
unfoldable pub storage_error : Bytes → Bytes → Bytes → Bytes → Call → Response
unfolding map_storage_error s3_error
storage_error special special_message err resource call =
    let (status, code) = map_storage_error err in
    s3_error status code (if beq code special then special_message else err) resource call

unfoldable pub plain_error : Bytes → Bytes → Call → Response
unfolding map_storage_error s3_error
plain_error err resource call =
    let (status, code) = map_storage_error err in s3_error status code err resource call

unfoldable pub not_allowed : Bytes → Call → Response
unfolding s3_error
not_allowed resource call =
    s3_error 405 (codes "MethodNotAllowed") (codes "Unsupported method") resource call
