-- ===== src/Gateway/Util/Percent.antt =====
-- `hex_value`, `percent_decode`, `is_unreserved` and `percent_encode`.
pub mod Unreserved
use prompt_cache_storage.Prelude.{
  ℕ, ◌+◌, ◌-◌, ◌*◌, ◌/◌, ◌%◌, ◌<◌, ◌≡◌, refl, ◌∙◌, ap, Bool, true, false, ◌&&◌, ◌||◌, not, Option,
  none, some, [], ◌∷◌, ◌++◌, Bytes, arith, ltb, leb, ◌==◌, if◌then◌else◌, All, All-append, ◌≢◌, inl,
  inr, Bool-cases,
}
use prompt_cache_storage.Prelude.Text.{IsByte, Lacks}

unfoldable pub in_range : ℕ → ℕ → ℕ → Bool
in_range lo hi c = leb lo c && leb c hi

-- `none` is the result -1.
hex_value : ℕ → Option ℕ
unfolding in_range
hex_value c =
    if in_range b'0' b'9' c
    then some (c - b'0')
    else if in_range b'a' b'f' c
    then some (10 + (c - b'a'))
    else if in_range b'A' b'F' c
    then some (10 + (c - b'A'))
    else none

-- `(hi << 4) | lo`, whose parts do not overlap.
join_nibbles : Option ℕ → Option ℕ → Option ℕ
join_nibbles none lo = none
join_nibbles (some hi) none = none
join_nibbles (some hi) (some lo) = some (hi * 16 + lo)

prepend : Option ℕ → Option Bytes → Option Bytes
prepend none rest = none
prepend (some c) none = none
prepend (some c) (some s) = some (c ∷ s)

-- The loop of `percent_decode`; the two bytes behind a `%` are skipped with it.
unfoldable pub percent_decode : Bytes → Option Bytes
unfolding hex_value join_nibbles prepend
percent_decode [] = some []
percent_decode (c ∷ []) = if c == b'%' then none else some (c ∷ [])
percent_decode (c ∷ d ∷ []) =
    let rest = percent_decode (d ∷ []) in if c == b'%' then none else prepend (some c) rest
percent_decode (c ∷ d ∷ e ∷ s) =
    let plain = prepend (some c) (percent_decode (d ∷ e ∷ s)) in
    let escaped = prepend (join_nibbles (hex_value d) (hex_value e)) (percent_decode s) in
    if c == b'%' then escaped else plain

unfoldable pub is_unreserved : ℕ → Bool
unfolding in_range
is_unreserved c =
    in_range b'0' b'9' c
    || in_range b'A' b'Z' c
    || in_range b'a' b'z' c
    || (c == b'-')
    || (c == b'.')
    || (c == b'_')
    || (c == b'~')

hex_upper : ℕ → ℕ
hex_upper d = if ltb d 10 then b'0' + d else 55 + d

-- What one byte is written as.
encode_byte : Bool → ℕ → Bytes
unfolding is_unreserved hex_upper
encode_byte encode_slash c =
    if not encode_slash && (c == b'/')
    then b'/' ∷ []
    else if is_unreserved c
    then c ∷ []
    else b'%' ∷ hex_upper (c / 16 % 16) ∷ hex_upper (c % 16) ∷ []

unfoldable pub percent_encode : Bytes → Bool → Bytes
unfolding encode_byte
percent_encode [] encode_slash = []
percent_encode (c ∷ s) encode_slash = encode_byte encode_slash c ++ percent_encode s encode_slash

decode_plain :
    (c : ℕ) (s : Bytes)
    → (c == b'%') ≡ false
    → percent_decode (c ∷ s) ≡ prepend (some c) (percent_decode s)
unfolding percent_decode
decode_plain c [] h = rw h refl
decode_plain c (d ∷ []) h = rw h refl
decode_plain c (d ∷ e ∷ s) h = rw h refl

hex_value-hex_upper : (d : ℕ) → d < 16 → hex_value (hex_upper d) ≡ some d
unfolding hex_value hex_upper
hex_value-hex_upper d h = ground arith

decode_escaped :
    (h l : ℕ) (s : Bytes)
    → h < 16
    → l < 16
    → percent_decode (b'%' ∷ hex_upper h ∷ hex_upper l ∷ s)
      ≡ prepend (some (h * 16 + l)) (percent_decode s)
unfolding percent_decode
decode_escaped h l s p q = rw (hex_value-hex_upper h p, hex_value-hex_upper l q) refl

unreserved-plain : (c : ℕ) → is_unreserved c ≡ true → (c == b'%') ≡ false
unfolding is_unreserved
unreserved-plain c h = ground arith

nibbles : (c : ℕ) → c < 256 → c / 16 % 16 * 16 + c % 16 ≡ c
nibbles c h = omega arith

below_16 : (c : ℕ) → c % 16 < 16
below_16 c = omega arith

encode_byte_slash :
    (slash : Bool) (c : ℕ) → (not slash && (c == b'/')) ≡ true → encode_byte slash c ≡ c ∷ []
unfolding encode_byte
encode_byte_slash slash c h = ground arith

encode_byte_plain :
    (slash : Bool) (c : ℕ)
    → (not slash && (c == b'/')) ≡ false
    → is_unreserved c ≡ true
    → encode_byte slash c ≡ c ∷ []
unfolding encode_byte
encode_byte_plain slash c h u = rw (h, u) refl

encode_byte_escaped :
    (slash : Bool) (c : ℕ)
    → (not slash && (c == b'/')) ≡ false
    → is_unreserved c ≡ false
    → encode_byte slash c ≡ b'%' ∷ hex_upper (c / 16 % 16) ∷ hex_upper (c % 16) ∷ []
unfolding encode_byte
encode_byte_escaped slash c h u = rw (h, u) refl

slash-plain : (slash : Bool) (c : ℕ) → (not slash && (c == b'/')) ≡ true → (c == b'%') ≡ false
slash-plain slash c h = ground arith

decode-encode_byte :
    (slash : Bool) (c : ℕ) (s : Bytes)
    → IsByte c
    → percent_decode (encode_byte slash c ++ s) ≡ prepend (some c) (percent_decode s)
decode-encode_byte slash c s h = elim (Bool-cases (not slash && (c == b'/'))) [
  | inl t ↦ rw (encode_byte_slash slash c t) (decode_plain c s (slash-plain slash c t))
  | inr f ↦ elim (Bool-cases (is_unreserved c)) [
    | inl u ↦ rw (encode_byte_plain slash c f u) (decode_plain c s (unreserved-plain c u))
    | inr e ↦ rw (encode_byte_escaped slash c f e) (
        decode_escaped (c / 16 % 16) (c % 16) s (below_16 (c / 16)) (below_16 c)
        ∙ ap (λ b. prepend (some b) (percent_decode s)) (nibbles c h))
  ]
]

-- Every text of bytes is decoded to itself from its encoding, with slashes encoded or not.
pub percent_decode-percent_encode :
    (s : Bytes) (encode_slash : Bool)
    → All IsByte s
    → percent_decode (percent_encode s encode_slash) ≡ some s
unfolding percent_encode prepend
percent_decode-percent_encode [] slash h = unfold percent_decode in refl
percent_decode-percent_encode (c ∷ s) slash (h, hs) =
    decode-encode_byte slash c (percent_encode s slash) h
    ∙ ap (prepend (some c)) (percent_decode-percent_encode s slash hs)

-- What separates the parts of a query is always escaped.
abbrev pub IsPlain : ℕ → Type 0
IsPlain c = (c ≢ b'&') × (c ≢ b'=') × (c ≢ b'?')

unreserved-IsPlain : (c : ℕ) → is_unreserved c ≡ true → IsPlain c
unfolding is_unreserved
unreserved-IsPlain c h = (λ e. ground arith, λ e. ground arith, λ e. ground arith)

hex_upper-IsPlain : (d : ℕ) → d < 16 → IsPlain (hex_upper d)
unfolding hex_upper
hex_upper-IsPlain d h = (λ e. ground arith, λ e. ground arith, λ e. ground arith)

slash-IsPlain : (slash : Bool) (c : ℕ) → (not slash && (c == b'/')) ≡ true → IsPlain c
slash-IsPlain slash c h = (λ e. ground arith, λ e. ground arith, λ e. ground arith)

encode_byte-IsPlain : (slash : Bool) (c : ℕ) → All IsPlain (encode_byte slash c)
encode_byte-IsPlain slash c = elim (Bool-cases (not slash && (c == b'/'))) [
  | inl t ↦ rw (encode_byte_slash slash c t) (slash-IsPlain slash c t, tt)
  | inr f ↦ elim (Bool-cases (is_unreserved c)) [
    | inl u ↦ rw (encode_byte_plain slash c f u) (unreserved-IsPlain c u, tt)
    | inr e ↦ rw (encode_byte_escaped slash c f e) (
      (omega arith, omega arith, omega arith),
      (hex_upper-IsPlain _ (below_16 (c / 16)), (hex_upper-IsPlain _ (below_16 c), tt)),
    )
  ]
]

pub percent_encode-IsPlain :
    (s : Bytes) (encode_slash : Bool) → All IsPlain (percent_encode s encode_slash)
unfolding percent_encode
percent_encode-IsPlain [] slash = tt
percent_encode-IsPlain (c ∷ s) slash =
    All-append IsPlain (encode_byte slash c) _ (encode_byte-IsPlain slash c)
      (percent_encode-IsPlain s slash)

-- With the slash escaped, none is left.
unreserved_slash : (c : ℕ) → is_unreserved c ≡ true → c ≢ b'/'
unfolding is_unreserved
unreserved_slash c h = λ e. ground arith

hex_upper_slash : (d : ℕ) → d < 16 → hex_upper d ≢ b'/'
unfolding hex_upper
hex_upper_slash d h = λ e. ground arith

escaped_slash : (c : ℕ) → (not true && (c == b'/')) ≡ false
escaped_slash c = refl

encode_byte-Lacks : (c : ℕ) → Lacks b'/' (encode_byte true c)
encode_byte-Lacks c = elim (Bool-cases (is_unreserved c)) [
  | inl u ↦ rw (encode_byte_plain true c (escaped_slash c) u) (unreserved_slash c u, tt)
  | inr e ↦
      rw (encode_byte_escaped true c (escaped_slash c) e)
        (omega arith, (hex_upper_slash _ (below_16 (c / 16)), (hex_upper_slash _ (below_16 c), tt)))
]

pub percent_encode-Lacks : (s : Bytes) → Lacks b'/' (percent_encode s true)
unfolding percent_encode
percent_encode-Lacks [] = tt
percent_encode-Lacks (c ∷ s) =
    All-append (λ x. x ≢ b'/') (encode_byte true c) _ (encode_byte-Lacks c) (percent_encode-Lacks s)
