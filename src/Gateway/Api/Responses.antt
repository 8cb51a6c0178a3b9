-- ===== src/Gateway/Api/Responses.antt =====
-- The responses that `Api::handle` builds, and how it reads numbers. How a time is printed stands on the C
-- library's calendar and is a parameter.
use prompt_cache_storage.Prelude.Text.{is_empty}
use prompt_cache_storage.Prelude.{
  ℤ, pos, ◌+◌, ◌-◌, Bool, true, false, Option, none, some, List, [], ◌∷◌, ◌++◌, Bytes, codes, ◌==◌,
  if◌then◌else◌, length, take, drop,
}
use prompt_cache_storage.Prelude.Int.{to_ℕ, to_size_t}
use prompt_cache_storage.Prelude.Numeral.{from_chars, to_string, to_stringℤ}
use prompt_cache_storage.Gateway.Http.{Response}
use prompt_cache_storage.Gateway.Util.Whitespace.{trim_start}
use prompt_cache_storage.Gateway.Storage.Meta.{ObjectMeta}
use prompt_cache_storage.Gateway.Storage.Store
use prompt_cache_storage.Gateway.Storage.Store.{
  list_buckets, create_bucket, bucket_exists, delete_bucket, put_object, get_object_data,
  head_object, delete_object,
}
use prompt_cache_storage.Gateway.Storage.Listing.{ListedObject, ListResult}
use prompt_cache_storage.Gateway.Api.Range.{ByteRange, parse_single_range}
use prompt_cache_storage.Gateway.Api.Reply.{
  Call, xml_escape, element, s3_error, xml_head, server_field,
}

-- `iso8601_gmt` and `util::rfc1123_gmt`
pub record Calendar : Type 0 where
  pub iso8601_gmt : ℤ → Bytes
  pub rfc1123_gmt : ℤ → Bytes

after_plus : Bytes → Option ℤ
after_plus [] = none
after_plus (c ∷ s) = if c == b'-' then none else from_chars (c ∷ s)

signed : Bytes → Option ℤ
unfolding after_plus
signed [] = none
signed (c ∷ s) = if c == b'+' then after_plus s else from_chars (c ∷ s)

-- `std::stoll`; `none` is an exception.
unfoldable pub stoll : Bytes → Option ℤ
unfolding signed
stoll s = signed (trim_start s)

unfoldable pub or_empty : Option Bytes → Bytes
or_empty none = []
or_empty (some s) = s

-- `max-keys`, 1000 where it is missing or not a number.
unfoldable pub max_keys_of : Option Bytes → ℤ
max_keys_of none = pos 1000
max_keys_of (some text) = elim (stoll text) [ none ↦ pos 1000 | some n ↦ n ]

bool_text : Bool → Bytes
bool_text true = codes "true"
bool_text false = codes "false"

quoted : Bytes → Bytes
quoted s = b'"' ∷ (s ++ (b'"' ∷ []))

abbrev namespace : Bytes
namespace = codes " xmlns=\"http://s3.amazonaws.com/doc/2006-03-01/\">"

-- The bytes of `r` out of `bytes`.
unfoldable pub slice : ByteRange → Bytes → Bytes
slice r bytes = take (to_ℕ r.end + 1 - to_ℕ r.start) (drop (to_ℕ r.start) bytes)

module _ (calendar : Calendar) where
  open calendar use {iso8601_gmt, rfc1123_gmt}

  bucket_items : Bytes → List Bytes → Bytes
  bucket_items now [] = []
  bucket_items now (b ∷ buckets) =
      element (codes "Bucket")
        (element (codes "Name") (xml_escape b) ++ element (codes "CreationDate") now)
      ++ bucket_items now buckets

  object_items : List ListedObject → Bytes
  unfolding quoted
  object_items [] = []
  object_items (o ∷ objects) =
      element (codes "Contents") (
        element (codes "Key") (xml_escape o.key)
        ++ (element (codes "LastModified") (iso8601_gmt o.meta.mtime)
            ++ (element (codes "ETag") (quoted (xml_escape o.meta.etag))
                ++ (element (codes "Size") (to_stringℤ o.meta.size)
                    ++ element (codes "StorageClass") (codes "STANDARD")))))
      ++ object_items objects

  unless_empty : Bool → Bytes → Bytes
  unless_empty true s = []
  unless_empty false s = s

  -- The XML of `ListBucketResult`.
  unfoldable pub list_bucket_result : Bytes → Bytes → ℤ → Bytes → ListResult → Bytes
  unfolding object_items bool_text unless_empty
  list_bucket_result bucket prefix max_keys cont lr =
      xml_head
      ++ (codes "<ListBucketResult"
          ++ (namespace
              ++ (element (codes "Name") (xml_escape bucket)
                  ++ (element (codes "Prefix") (xml_escape prefix)
                      ++ (element (codes "MaxKeys") (to_stringℤ max_keys)
                          ++ (element (codes "KeyCount") (to_string (length lr.objects))
                              ++ (element (codes "IsTruncated") (bool_text lr.is_truncated)
                                  ++ (unless_empty (is_empty cont)
                                        (element (codes "ContinuationToken") (xml_escape cont))
                                      ++ ((if lr.is_truncated
                                            then unless_empty (is_empty lr.next_continuation_token)
                                                (element (codes "NextContinuationToken")
                                                  (xml_escape lr.next_continuation_token))
                                            else [])
                                          ++ (object_items lr.objects
                                              ++ codes "</ListBucketResult>"))))))))))

  -- The XML of `ListAllMyBucketsResult`.
  unfoldable pub list_all_result : Bytes → List Bytes → Bytes
  unfolding bucket_items
  list_all_result now buckets =
      xml_head
      ++ (codes "<ListAllMyBucketsResult"
          ++ (namespace
              ++ (codes "<Owner><ID></ID><DisplayName></DisplayName></Owner><Buckets>"
                  ++ (bucket_items now buckets ++ codes "</Buckets></ListAllMyBucketsResult>"))))

  -- HEAD of an object that is there.
  unfoldable pub head_response : ObjectMeta → Call → Response
  unfolding quoted
  head_response m call = record {
    status = 200;
    version = call.version;
    keep_alive = call.keep_alive;
    content_length = to_size_t m.size;
    headers =
        server_field
        ∷ (
          codes "Content-Type",
          if is_empty m.content_type then codes "application/octet-stream" else m.content_type,
        )
        ∷ (codes "ETag", quoted m.etag)
        ∷ (codes "Last-Modified", rfc1123_gmt m.mtime)
        ∷ (codes "Accept-Ranges", codes "bytes")
        ∷ [];
    body = [];
  }

unfoldable pub put_response : ObjectMeta → Call → Response
unfolding quoted
put_response m call = record {
  status = 200;
  version = call.version;
  keep_alive = call.keep_alive;
  content_length = 0;
  headers = server_field ∷ (codes "ETag", quoted m.etag) ∷ [];
  body = [];
}

-- GET of a whole object, and of a range of one.
abbrev data_fields : List (Bytes × Bytes)
data_fields =
    server_field
    ∷ (codes "Content-Type", codes "application/octet-stream")
    ∷ (codes "Accept-Ranges", codes "bytes")
    ∷ []

unfoldable pub whole_response : Bytes → Call → Response
whole_response bytes call = record {
  status = 200;
  version = call.version;
  keep_alive = call.keep_alive;
  content_length = length bytes;
  headers = data_fields;
  body = bytes;
}

unfoldable pub part_response : ByteRange → Bytes → Call → Response
unfolding slice
part_response r bytes call = record {
  status = 206;
  version = call.version;
  keep_alive = call.keep_alive;
  content_length = length (slice r bytes);
  headers =
      server_field
      ∷ (codes "Content-Type", codes "application/octet-stream")
      ∷ (codes "Accept-Ranges", codes "bytes")
      ∷ (
        codes "Content-Range",
        codes "bytes "
            ++ (to_string (to_ℕ r.start)
                ++ (b'-' ∷ (to_string (to_ℕ r.end) ++ (b'/' ∷ to_string (length bytes))))),
      )
      ∷ [];
  body = slice r bytes;
}

unfoldable pub range_error : Bytes → Bytes → Call → Response
range_error bytes resource call =
    let res =
      s3_error 416 (codes "InvalidRange") (codes "The requested range is not satisfiable") resource
        call in
    record res {
      headers =
          res.headers ++ (codes "Content-Range", codes "bytes */" ++ to_string (length bytes)) ∷ [];
    }

-- The response to the data, given the field Range.
unfoldable pub data_response : Option Bytes → Bytes → Bytes → Call → Response
unfolding whole_response part_response range_error
data_response none bytes resource call = whole_response bytes call
data_response (some range) bytes resource call =
    elim (parse_single_range range (pos (length bytes))) [
      | none ↦ range_error bytes resource call
      | some r ↦ part_response r bytes call
    ]

abbrev pub no_such_key : Bytes
no_such_key = codes "The specified key does not exist"

unfoldable pub content_type_of : Option Bytes → Bytes
content_type_of none = codes "application/octet-stream"
content_type_of (some t) = t

unfoldable pub or_text : Bytes → Bytes → Bytes
or_text text default = if is_empty text then default else text

-- What is sent for a result of the store.
abbrev pub reply : {A : Type 0} → (A → Response) → (Bytes → Response) → Store.Result A → Response
reply good bad (Store.ok a) = good a
reply good bad (Store.err e) = bad e
