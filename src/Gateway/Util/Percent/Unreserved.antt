-- ===== src/Gateway/Util/Percent/Unreserved.antt =====
-- Texts that need no encoding, such as hexadecimal digits.
use prompt_cache_storage.Prelude.{
  ℕ, ◌≡◌, ◌≢◌, refl, Bool, true, false, ◌&&◌, not, ◌==◌, [], ◌∷◌, Bytes, All, arith,
}
use prompt_cache_storage.Prelude.Text.{IsByte}
use prompt_cache_storage.Gateway.Util.Percent.{is_unreserved, encode_byte_plain, percent_encode}

abbrev pub AreUnreserved : Bytes → Type 0
AreUnreserved = All (λ c. is_unreserved c ≡ true)

not_slash : (c : ℕ) (slash : Bool) → is_unreserved c ≡ true → (not slash && (c == b'/')) ≡ false
unfolding is_unreserved
not_slash c slash h = ground arith

pub percent_encode-AreUnreserved :
    (s : Bytes) (slash : Bool) → AreUnreserved s → percent_encode s slash ≡ s
unfolding percent_encode
percent_encode-AreUnreserved [] slash h = refl
percent_encode-AreUnreserved (c ∷ s) slash (h, hs) =
    rw (encode_byte_plain slash c (not_slash c slash h) h, percent_encode-AreUnreserved s slash hs)

unreserved-IsByte : (c : ℕ) → is_unreserved c ≡ true → IsByte c × (c ≢ 0)
unfolding is_unreserved
unreserved-IsByte c h = (ground arith, λ e. ground arith)

pub AreUnreserved-bytes : (s : Bytes) → AreUnreserved s → All IsByte s
AreUnreserved-bytes [] h = tt
AreUnreserved-bytes (c ∷ s) (h, hs) = ((unreserved-IsByte c h).0, AreUnreserved-bytes s hs)

pub AreUnreserved-ne_zero : (s : Bytes) → AreUnreserved s → All (λ c. c ≢ 0) s
AreUnreserved-ne_zero [] h = tt
AreUnreserved-ne_zero (c ∷ s) (h, hs) = ((unreserved-IsByte c h).1, AreUnreserved-ne_zero s hs)
