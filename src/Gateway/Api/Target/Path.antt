-- ===== src/Gateway/Api/Target/Path.antt =====
-- `parse_target` on the path-style targets that clients send.
use prompt_cache_storage.Prelude.{
  ◌≡◌, ◌≢◌, refl, ◌∙◌, Bool, true, [], ◌∷◌, ◌++◌, Bytes, All, All-append, arith,
}
use prompt_cache_storage.Prelude.Text.{IsByte, Lacks, break_on, break_on-append, break_on-Lacks}
use prompt_cache_storage.Gateway.Http.{Request}
use prompt_cache_storage.Gateway.Util.Percent.{
  percent_encode, percent_decode-percent_encode, IsPlain, percent_encode-IsPlain,
  percent_encode-Lacks,
}
use prompt_cache_storage.Gateway.Util.Query.{parse_query, decode_or_raw}
use prompt_cache_storage.Gateway.Api.Target.{
  bucket_from_host, drop_slash, path_style, split_target, bucket_and_key, parse_target,
}

-- `/bucket/key`, both encoded; slashes of the key may stay as they are.
unfoldable pub object_target : Bytes → Bytes → Bool → Bytes
object_target bucket key encode_slash =
    b'/' ∷ (percent_encode bucket true ++ b'/' ∷ percent_encode key encode_slash)

plain_question : (s : Bytes) → All IsPlain s → Lacks b'?' s
plain_question [] h = tt
plain_question (c ∷ s) ((a, e, q), hs) = (q, plain_question s hs)

object_target-Lacks :
    (bucket key : Bytes) (encode_slash : Bool) → Lacks b'?' (object_target bucket key encode_slash)
unfolding object_target
object_target-Lacks bucket key encode_slash = (
  omega arith,
  All-append (λ c. c ≢ b'?') (percent_encode bucket true) _
      (plain_question _ (percent_encode-IsPlain bucket true))
      (omega arith, plain_question _ (percent_encode-IsPlain key encode_slash)),
)

split-object_target :
    (bucket key : Bytes) (encode_slash : Bool)
    → split_target (object_target bucket key encode_slash)
      ≡ (object_target bucket key encode_slash, [])
unfolding split_target
split-object_target bucket key encode_slash =
    rw (break_on-Lacks b'?' _ (object_target-Lacks bucket key encode_slash), split_target)
      (unfold object_target in refl)

decode-encode :
    (s : Bytes) (slash : Bool) → All IsByte s → decode_or_raw (percent_encode s slash) ≡ s
unfolding decode_or_raw
decode-encode s slash h = rw (percent_decode-percent_encode s slash h, decode_or_raw)

path_style-cut :
    (a b : Bytes) → Lacks b'/' a → path_style (a ++ b'/' ∷ b) ≡ (decode_or_raw a, decode_or_raw b)
unfolding path_style break_on
path_style-cut [] b h = refl
path_style-cut (c ∷ a) b h = rw (break_on-append b'/' (c ∷ a) b h, path_style)

cut-object_target :
    (bucket key : Bytes) (encode_slash : Bool)
    → All IsByte bucket
    → All IsByte key
    → path_style (drop_slash (object_target bucket key encode_slash)) ≡ (bucket, key)
unfolding object_target drop_slash
cut-object_target bucket key encode_slash hb hk =
    path_style-cut (percent_encode bucket true) (percent_encode key encode_slash)
      (percent_encode-Lacks bucket)
    ∙ rw (decode-encode bucket true hb, decode-encode key encode_slash hk)

-- With no suffix for virtual hosts, the target of a bucket and a key made of bytes is parsed to them,
-- whatever the request's fields are.
pub parse_target-object_target :
    (req : Request) (bucket key : Bytes) (encode_slash : Bool)
    → req.target ≡ object_target bucket key encode_slash
    → All IsByte bucket
    → All IsByte key
    → parse_target req [] ≡ record {
      bucket = bucket;
      key = key;
      path = object_target bucket key encode_slash;
      query = [];
      query_params = [];
    }
unfolding parse_target bucket_from_host parse_query
parse_target-object_target req bucket key encode_slash e hb hk = rw (
  e,
  split-object_target bucket key encode_slash,
  bucket_and_key,
  cut-object_target bucket key encode_slash hb hk,
)
