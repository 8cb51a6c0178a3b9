-- ===== src/IndexLayer/Hash/Names.antt =====
-- The ids of objects as names in a URL.
use prompt_cache_storage.Prelude.{
  ℕ, zero, suc, ◌-◌, ◌≡◌, ◌≢◌, true, codes, [], ◌∷◌, ◌++◌, Bytes, All, All-append, arith, length,
  replicate,
}
use prompt_cache_storage.Prelude.Numeral.{to_hex, IsHexDigit, to_hex-IsHexDigit, to_hex-ne-nil}
use prompt_cache_storage.Gateway.Util.Percent.{is_unreserved, in_range}
use prompt_cache_storage.Gateway.Util.Percent.Unreserved.{AreUnreserved}
use prompt_cache_storage.IndexLayer.Hash.{pad, hash_bytes_hex}

IsHexDigit-unreserved : (c : ℕ) → IsHexDigit c → is_unreserved c ≡ true
unfolding is_unreserved in_range
IsHexDigit-unreserved c h = ground arith

are_unreserved : (s : Bytes) → All IsHexDigit s → AreUnreserved s
are_unreserved [] h = tt
are_unreserved (c ∷ s) (h, hs) = (IsHexDigit-unreserved c h, are_unreserved s hs)

zeros-AreUnreserved : (n : ℕ) → AreUnreserved (replicate n b'0')
unfolding is_unreserved in_range
zeros-AreUnreserved zero = tt
zeros-AreUnreserved (suc n) = (ground arith, zeros-AreUnreserved n)

pub hash_bytes_hex-AreUnreserved :
    (hasher : Bytes → ℕ) (bytes : Bytes) → AreUnreserved (hash_bytes_hex hasher bytes)
unfolding hash_bytes_hex pad
hash_bytes_hex-AreUnreserved hasher bytes =
    let digits = to_hex (hasher bytes) in
    All-append (λ c. is_unreserved c ≡ true) (replicate (16 - length digits) b'0') digits
      (zeros-AreUnreserved (16 - length digits))
      (are_unreserved digits (to_hex-IsHexDigit (hasher bytes)))

append-ne_nil : (a b : Bytes) → b ≢ [] → a ++ b ≢ []
append-ne_nil [] b h = h
append-ne_nil (c ∷ a) b h = λ e. cc

-- A text of hexadecimal digits is neither `.` nor `..`.
not_dots : (s : Bytes) → All IsHexDigit s → (s ≢ codes ".") × (s ≢ codes "..")
not_dots [] h = (λ e. cc, λ e. cc)
not_dots (c ∷ s) (h, hs) = (λ e. no_dot c h (head e), λ e. no_dot c h (head e))
  where
    head : {c d : ℕ} {a b : Bytes} → c ∷ a ≡ d ∷ b → c ≡ d
    head e = cc

    no_dot : (c : ℕ) → IsHexDigit c → c ≢ b'.'
    no_dot c h = λ e. omega arith

zeros-IsHexDigit : (n : ℕ) → All IsHexDigit (replicate n b'0')
zeros-IsHexDigit zero = tt
zeros-IsHexDigit (suc n) = (omega arith, zeros-IsHexDigit n)

pub hash_bytes_hex-ne-dots :
    (hasher : Bytes → ℕ) (bytes : Bytes)
    → let id = hash_bytes_hex hasher bytes in (id ≢ codes ".") × (id ≢ codes "..")
unfolding hash_bytes_hex pad
hash_bytes_hex-ne-dots hasher bytes =
    let digits = to_hex (hasher bytes) in
    not_dots _ (
      All-append IsHexDigit (replicate (16 - length digits) b'0') digits
        (zeros-IsHexDigit (16 - length digits)) (to_hex-IsHexDigit (hasher bytes)))

pub hash_bytes_hex-ne-nil : (hasher : Bytes → ℕ) (bytes : Bytes) → hash_bytes_hex hasher bytes ≢ []
unfolding hash_bytes_hex pad
hash_bytes_hex-ne-nil hasher bytes = append-ne_nil _ _ (to_hex-ne-nil (hasher bytes))
