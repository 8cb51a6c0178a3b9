-- ===== src/Gateway/Util/Base64.antt =====
-- util.cpp: `base64_encode` and `base64_decode` over the block functions of OpenSSL, which are a parameter.
use prompt_cache_storage.Prelude.{
  ℕ, zero, suc, ◌+◌, ◌-◌, ◌%◌, ◌≤◌, ◌≡◌, ◌≢◌, refl, ◌∙◌, ap, true, Option, none, some, [], ◌∷◌,
  ◌++◌, Bytes, All, length, take, replicate, ◌==◌, if◌then◌else◌, arith, leb, le→leb, append-nil,
  length-append, length-replicate,
}
use prompt_cache_storage.Gateway.Storage.Listing.{Coder}

-- `EVP_EncodeBlock` and `EVP_DecodeBlock`: the bytes that they write, as many as they return; `none` is a
-- negative result.
pub record Evp : Type 0 where
  pub encode_block : Bytes → Bytes
  pub decode_block : Bytes → Option Bytes

-- 1 if the byte at this distance from the end is `=`.
equals_sign : Option ℕ → ℕ
equals_sign none = 0
equals_sign (some c) = if c == b'=' then 1 else 0

-- The last byte and the one before it.
last_two : Bytes → Option ℕ × Option ℕ
last_two [] = (none, none)
last_two (c ∷ []) = (none, some c)
last_two (c ∷ d ∷ []) = (some c, some d)
last_two (c ∷ d ∷ e ∷ s) = last_two (d ∷ e ∷ s)

-- `pad`
unfoldable pub padding : Bytes → ℕ
unfolding equals_sign last_two
padding s = let (before, last) = last_two s in equals_sign last + equals_sign before

module _ (evp : Evp) where
  open evp use {encode_block, decode_block}

  unfoldable pub base64_encode : Bytes → Bytes
  base64_encode s = encode_block s

  -- `none` is the exception of `resize`, if less was decoded than there is padding.
  unfoldable pub base64_decode : Bytes → Option (Option Bytes)
  base64_decode s = elim (decode_block s) [
    | none ↦ some none
    | some out ↦
        if leb (padding s) (length out)
        then some (some (take (length out - padding s) out))
        else none
  ]

  decoded_of : Option (Option Bytes) → Option Bytes
  decoded_of none = none
  decoded_of (some result) = result

  -- The coder of the continuation tokens. OpenSSL's lengths rule the exception out.
  unfoldable pub base64 : Coder
  unfolding base64_encode base64_decode decoded_of
  base64 = record { encode = base64_encode; decode = λ s. decoded_of (base64_decode s) }

-- How many bytes are missing from the last block of three.
unfoldable pub missing : ℕ → ℕ
missing n = (3 - n % 3) % 3

-- What OpenSSL documents: the text ends in as many `=` as bytes are missing from the last block, with no other
-- `=` in it; decoding it gives the bytes, with a zero for each that was missing.
pub record EvpLaws (evp : Evp) : Type 0 where
  pub digits : Bytes → Bytes
  pub no_equals : (s : Bytes) → All (λ c. c ≢ b'=') (digits s)
  pub encoded : (s : Bytes) → evp.encode_block s ≡ digits s ++ replicate (missing (length s)) b'='
  pub decoded :
      (s : Bytes)
      → evp.decode_block (evp.encode_block s) ≡ some (s ++ replicate (missing (length s)) 0)

no_sign : (c : ℕ) → c ≢ b'=' → equals_sign (some c) ≡ 0
unfolding equals_sign
no_sign c h = ground arith

padding_none : (d : Bytes) → All (λ c. c ≢ b'=') d → padding d ≡ 0
unfolding padding last_two
padding_none [] h = refl
padding_none (c ∷ []) (h, hs) = rw (no_sign c h) refl
padding_none (c ∷ e ∷ []) (h, (h', hs)) = rw (no_sign c h, no_sign e h') refl
padding_none (c ∷ e ∷ f ∷ d) (h, hs) = padding_none (e ∷ f ∷ d) hs

padding_one : (d : Bytes) → All (λ c. c ≢ b'=') d → padding (d ++ b'=' ∷ []) ≡ 1
unfolding padding last_two equals_sign
padding_one [] h = refl
padding_one (c ∷ []) (h, hs) = ground arith
padding_one (c ∷ e ∷ []) (h, hs) = padding_one (e ∷ []) hs
padding_one (c ∷ e ∷ f ∷ d) (h, hs) = padding_one (e ∷ f ∷ d) hs

padding_two : (d : Bytes) → padding (d ++ b'=' ∷ b'=' ∷ []) ≡ 2
unfolding padding last_two equals_sign
padding_two [] = refl
padding_two (c ∷ []) = refl
padding_two (c ∷ e ∷ []) = refl
padding_two (c ∷ e ∷ f ∷ d) = padding_two (e ∷ f ∷ d)

padding_signs :
    (n : ℕ) (d : Bytes) → All (λ c. c ≢ b'=') d → n ≤ 2 → padding (d ++ replicate n b'=') ≡ n
padding_signs zero d h le = ap padding (append-nil d) ∙ padding_none d h
padding_signs (suc zero) d h le = padding_one d h
padding_signs (suc (suc zero)) d h le = padding_two d
padding_signs (suc (suc (suc n))) d h le = absurd (omega arith)

missing-le : (n : ℕ) → missing n ≤ 2
unfolding missing
missing-le n = omega arith

take-append : (s t : Bytes) → take (length s) (s ++ t) ≡ s
take-append [] [] = refl
take-append [] (c ∷ t) = refl
take-append (c ∷ s) t = ap (λ r. c ∷ r) (take-append s t)

module _ (evp : Evp) (laws : EvpLaws evp) where
  padding-encode_block : (s : Bytes) → padding (evp.encode_block s) ≡ missing (length s)
  padding-encode_block s =
      ap padding (laws.encoded s)
      ∙ padding_signs (missing (length s)) (laws.digits s) (laws.no_equals s)
          (missing-le (length s))

  cut :
      (s : Bytes) (n : ℕ)
      → let out = s ++ replicate n 0 in
        (leb n (length out) ≡ true) × (take (length out - n) out ≡ s)
  cut s n =
      let size : length (s ++ replicate n 0) ≡ length s + n =
        length-append s (replicate n 0) ∙ ap (λ k. length s + k) (length-replicate {A = ℕ} n 0) in
      (
        le→leb n (length (s ++ replicate n 0)) (omega (arith, size)),
        ap (λ k. take k (s ++ replicate n 0)) (omega (arith, size)) ∙ take-append s (replicate n 0),
      )

  -- What is encoded is decoded again.
  pub base64_decode-base64_encode :
      (s : Bytes) → base64_decode evp (base64_encode evp s) ≡ some (some s)
  unfolding base64_decode base64_encode
  base64_decode-base64_encode s =
      let (fits, rest) = cut s (missing (length s)) in
      rw (base64_decode, base64_encode, laws.decoded s, padding-encode_block s, fits, rest) refl

  -- A continuation token names the key that it was made of.
  pub base64-token : (k : Bytes) → (base64 evp).decode ((base64 evp).encode k) ≡ some k
  unfolding base64 decoded_of
  base64-token k = ap (decoded_of evp) (base64_decode-base64_encode k)
