-- ===== src/Gateway/Auth/Parse.antt =====
-- `parse_authorization_sigv4` and `parse_presigned`: what a request says of its signature.
use prompt_cache_storage.Prelude.{
  Option, none, some, List, [], ◌∷◌, Bytes, codes, beq, if◌then◌else◌, map,
}
use prompt_cache_storage.Prelude.Text.{strip_prefix, break_on, split_on}
use prompt_cache_storage.Prelude.Assoc.{Assoc, lookup, insert, bytes_key}
use prompt_cache_storage.Gateway.Http.{Request, header_value, to_lower}
use prompt_cache_storage.Gateway.Util.Hex.{hex_lower}
use prompt_cache_storage.Gateway.Util.Query.{Params, parse_query}
use prompt_cache_storage.Gateway.Util.Whitespace.{trim_start, trim_end}
use prompt_cache_storage.Gateway.Auth.Digests.{Crypto}

-- The fields that `AuthHeader` and `PresignedQuery` share and that are read; the payload hash of a
-- presigned request is fixed.
pub record Scope : Type 0 where
  pub access_key : Bytes
  pub date : Bytes
  pub region : Bytes
  pub service : Bytes
  pub signed_headers_list : List Bytes
  pub signature : Bytes
  pub amz_date : Bytes
  pub payload_hash : Bytes

infixl 5 ◌>>=◌
abbrev pub ◌>>=◌ {ℓ κ} : {A : Type ℓ} {B : Type κ} → Option A → (A → Option B) → Option B
none >>= f = none
some a >>= f = f a

-- The text before and after the question mark, with `/` for an empty path.
abbrev path_or_root : Bytes → Bytes
path_or_root [] = b'/' ∷ []
path_or_root (c ∷ path) = c ∷ path

unfoldable pub parse_target : Bytes → Bytes × Bytes
parse_target target = elim (break_on b'?' target) [
  | none ↦ (path_or_root target, [])
  | some (path, query) ↦ (path_or_root path, query)
]

-- The loop over the parts between commas; a part without `=`, such as an empty one, is skipped.
unfoldable pub collect : List Bytes → Assoc Bytes Bytes → Assoc Bytes Bytes
collect [] kv = kv
collect (part ∷ parts) kv =
    collect parts (elim (break_on b'=' (trim_end (trim_start part))) [
      | none ↦ kv
      | some (k, v) ↦ insert k v kv
    ])

-- `split(credential, '/')` with at least five parts, of which four are used.
unfoldable pub credential_parts : List Bytes → Option (Bytes × Bytes × Bytes × Bytes)
credential_parts (key ∷ date ∷ region ∷ service ∷ last ∷ more) = some (key, date, region, service)
credential_parts parts = none

-- The scope from its parts.
unfoldable pub make_scope : Bytes → Bytes → Bytes → Bytes → Bytes → Option Scope
unfolding credential_parts
make_scope credential signed_headers signature amz_date payload_hash = do
  (key, date, region, service) ← credential_parts (split_on b'/' credential)
  some (record {
    access_key = key;
    date = date;
    region = region;
    service = service;
    signed_headers_list = map to_lower (split_on b';' signed_headers);
    signature = signature;
    amz_date = amz_date;
    payload_hash = payload_hash;
  })

unfoldable pub parse_fields : Bytes → Option (Bytes × Bytes × Bytes)
unfolding collect trim_start
parse_fields value = do
  rest ← strip_prefix (codes "AWS4-HMAC-SHA256") value
  let kv = collect (split_on b',' (trim_start rest)) []
  credential ← lookup (codes "Credential") kv
  signed_headers ← lookup (codes "SignedHeaders") kv
  signature ← lookup (codes "Signature") kv
  some (credential, signed_headers, signature)

-- The payload hash of the field, or the digest of the body.
unfoldable pub payload_hash_of : Crypto → Request → Option Bytes → Bytes
payload_hash_of crypto req none = hex_lower (crypto.sha256 req.body)
payload_hash_of crypto req (some hash) = hash

unfoldable pub parse_authorization_sigv4 : Crypto → Request → Option Scope
unfolding parse_fields make_scope payload_hash_of
parse_authorization_sigv4 crypto req = do
  value ← header_value req (codes "Authorization")
  (credential, signed_headers, signature) ← parse_fields value
  scope ← make_scope credential signed_headers signature [] []
  amz_date ← header_value req (codes "x-amz-date")
  some (record scope {
    amz_date = amz_date;
    payload_hash = payload_hash_of crypto req (header_value req (codes "x-amz-content-sha256"));
  })

unfoldable pub query_get : Params → Bytes → Option Bytes
query_get [] k = none
query_get ((j, v) ∷ q) k = let rest = query_get q k in if beq j k then some v else rest

unfoldable pub parse_presigned : Request → Option Scope
unfolding parse_target query_get make_scope
parse_presigned req = do
  let q = parse_query (parse_target req.target).1
  algorithm ← query_get q (codes "X-Amz-Algorithm")
  credential ← query_get q (codes "X-Amz-Credential")
  date ← query_get q (codes "X-Amz-Date")
  expires ← query_get q (codes "X-Amz-Expires")
  signed_headers ← query_get q (codes "X-Amz-SignedHeaders")
  signature ← query_get q (codes "X-Amz-Signature")
  if beq algorithm (codes "AWS4-HMAC-SHA256")
      then make_scope credential signed_headers signature date (codes "UNSIGNED-PAYLOAD")
      else none
