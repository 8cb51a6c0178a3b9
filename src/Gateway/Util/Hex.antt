-- ===== src/Gateway/Util/Hex.antt =====
-- `hex_lower` and `constant_time_equal`.
use Prim.Native.Nat.{bit_or, bit_xor}
use prompt_cache_storage.Prelude.{
  ℕ, ◌+◌, ◌/◌, ◌%◌, ◌≡◌, refl, Bool, true, false, [], ◌∷◌, Bytes, arith, ltb, ◌==◌, if◌then◌else◌,
  length, ◌↔◌, sym, Bool-cases, inl, inr, ==_iff,
}
use prompt_cache_storage.Prelude.Bits.{bit_or-ge, bit_xor-zero, bit_xor_self}

unfoldable pub hex_digit : ℕ → ℕ
hex_digit d = if ltb d 10 then b'0' + d else 87 + d

unfoldable pub hex_lower : Bytes → Bytes
unfolding hex_digit
hex_lower [] = []
hex_lower (b ∷ bytes) = hex_digit (b / 16 % 16) ∷ hex_digit (b % 16) ∷ hex_lower bytes

-- The loop over two texts of one length; `diff` stays within a byte.
unfoldable pub difference : ℕ → Bytes → Bytes → ℕ
difference diff [] b = diff
difference diff (c ∷ a) [] = diff
difference diff (c ∷ a) (d ∷ b) = difference (bit_or diff (bit_xor c d)) a b

unfoldable pub constant_time_equal : Bytes → Bytes → Bool
unfolding difference
constant_time_equal a b = if length a == length b then difference 0 a b == 0 else false

difference_zero :
    (diff : ℕ) (a b : Bytes) → length a ≡ length b → difference diff a b ≡ 0 → (diff ≡ 0) × (a ≡ b)
unfolding difference
difference_zero diff [] [] h e = (e, refl)
difference_zero diff [] (d ∷ b) h e = absurd (omega arith)
difference_zero diff (c ∷ a) [] h e = absurd (omega arith)
difference_zero diff (c ∷ a) (d ∷ b) h e =
    let (or, same) = difference_zero (bit_or diff (bit_xor c d)) a b (omega arith) e in
    let (left, right) = bit_or-ge diff (bit_xor c d) in
    let heads : c ≡ d = bit_xor-zero c d (omega arith) in (omega arith, cc (heads, same))

difference_self : (a : Bytes) → difference 0 a a ≡ 0
unfolding difference
difference_self [] = refl
difference_self (c ∷ a) = rw (bit_xor_self c) (difference_self a)

-- The comparison without early exit says whether the two texts are equal.
pub constant_time_equal_iff : (a b : Bytes) → (constant_time_equal a b ≡ true) ↔ (a ≡ b)
unfolding constant_time_equal
constant_time_equal_iff a b = (
  λ h. elim (Bool-cases (length a == length b)) [
    | inl e ↦
        (difference_zero 0 a b ((==_iff (length a) (length b)).0 e)
          ((==_iff (difference 0 a b) 0).0 (rw e at h))).1
    | inr e ↦ let q = rw e at h in cc q
  ],
  λ e. rw (sym e, (==_iff (length a) (length a)).1 refl, difference_self a),
)
