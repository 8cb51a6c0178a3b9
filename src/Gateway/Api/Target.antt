-- ===== src/Gateway/Api/Target.antt =====
-- The bucket and the key that a request names: `host_without_port`, `bucket_from_host` and
-- `parse_target`.
pub mod Path
use prompt_cache_storage.Prelude.{
  ◌-◌, Option, none, some, [], ◌∷◌, Bytes, codes, beq, leb, if◌then◌else◌, length, take, drop, ◌==◌,
}
use prompt_cache_storage.Prelude.Text.{break_on}
use prompt_cache_storage.Gateway.Http.{Request, header_value}
use prompt_cache_storage.Gateway.Util.Query.{Params, parse_query, decode_or_raw}

pub record ParsedTarget : Type 0 where
  pub bucket : Bytes
  pub key : Bytes
  pub path : Bytes
  pub query : Bytes
  pub query_params : Params

unfoldable pub host_without_port : Bytes → Bytes
host_without_port host = elim (break_on b':' host) [ none ↦ host | some (h, port) ↦ h ]

-- The name in front of the dot and the suffix: the text less its last byte, if that is a dot and
-- something is left.
unfoldable pub drop_dot : Bytes → Option Bytes
drop_dot [] = none
drop_dot (c ∷ []) = none
drop_dot (c ∷ d ∷ []) = if d == b'.' then some (c ∷ []) else none
drop_dot (c ∷ d ∷ e ∷ s) = elim (drop_dot (d ∷ e ∷ s)) [ none ↦ none | some name ↦ some (c ∷ name) ]

unfoldable pub bucket_from_host : Bytes → Bytes → Option Bytes
unfolding host_without_port drop_dot
bucket_from_host host [] = none
bucket_from_host host (c ∷ suffix) =
    let h = host_without_port host in
    let at = length h - length (c ∷ suffix) in
    if leb (length h) (length (c ∷ suffix))
    then none
    else if beq (drop at h) (c ∷ suffix)
    then drop_dot (take at h)
    else none

-- `remove_prefix(1)` if there is a slash in front.
unfoldable pub drop_slash : Bytes → Bytes
drop_slash [] = []
drop_slash (c ∷ path) = if c == b'/' then path else c ∷ path

abbrev path_or_root : Bytes → Bytes
path_or_root [] = b'/' ∷ []
path_or_root (c ∷ path) = c ∷ path

-- The bucket and the key of a path-style target, behind the first slash.
unfoldable pub path_style : Bytes → Bytes × Bytes
path_style [] = ([], [])
path_style (c ∷ p) = elim (break_on b'/' (c ∷ p)) [
  | none ↦ (decode_or_raw (c ∷ p), decode_or_raw [])
  | some (bucket, key) ↦ (decode_or_raw bucket, decode_or_raw key)
]

-- `find('?')` and the two parts.
unfoldable pub split_target : Bytes → Bytes × Bytes
split_target target = elim (break_on b'?' target) [
  | none ↦ (path_or_root target, [])
  | some (path, query) ↦ (path_or_root path, query)
]

host_of : Option Bytes → Bytes
host_of none = []
host_of (some host) = host

unfoldable pub bucket_and_key : Option Bytes → Bytes → Bytes × Bytes
unfolding drop_slash path_style
bucket_and_key (some bucket) path = (bucket, decode_or_raw (drop_slash path))
bucket_and_key none path = path_style (drop_slash path)

unfoldable pub parse_target : Request → Bytes → ParsedTarget
unfolding split_target host_of bucket_and_key
parse_target req vhost_suffix =
    let (path, query) = split_target req.target in
    let host = host_of (header_value req (codes "Host")) in
    let (bucket, key) = bucket_and_key (bucket_from_host host vhost_suffix) path in
    record {
      bucket = bucket;
      key = key;
      path = path;
      query = query;
      query_params = parse_query query;
    }
