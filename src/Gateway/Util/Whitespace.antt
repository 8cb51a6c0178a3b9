-- ===== src/Gateway/Util/Whitespace.antt =====
-- `trim_and_collapse_ws`.
use prompt_cache_storage.Prelude.{
  ℕ, ◌≡◌, refl, Bool, true, false, ◌&&◌, ◌||◌, [], ◌∷◌, Bytes, leb, ◌==◌, if◌then◌else◌, All,
}

-- `std::isspace` in the C locale.
unfoldable pub is_space : ℕ → Bool
is_space c = (c == 32) || (leb 9 c && leb c 13)

unfoldable pub trim_start : Bytes → Bytes
trim_start [] = []
trim_start (c ∷ s) = let rest = trim_start s in if is_space c then rest else c ∷ s

null : Bytes → Bool
null [] = true
null (c ∷ s) = false

unfoldable pub trim_end : Bytes → Bytes
unfolding null
trim_end [] = []
trim_end (c ∷ s) = let rest = trim_end s in if is_space c && null rest then [] else c ∷ rest

-- The last loop; the first argument is `in_ws`.
collapse : Bool → Bytes → Bytes
collapse in_ws [] = []
collapse in_ws (c ∷ s) =
    let more = collapse true s in
    let plain = c ∷ collapse false s in
    if is_space c then if in_ws then more else 32 ∷ more else plain

unfoldable pub trim_and_collapse_ws : Bytes → Bytes
unfolding trim_start trim_end collapse is_space
trim_and_collapse_ws s = collapse false (trim_end (trim_start s))

abbrev pub NoSpace : Bytes → Type 0
NoSpace = All (λ c. is_space c ≡ false)

pub trim_start-NoSpace : (s : Bytes) → NoSpace s → trim_start s ≡ s
unfolding trim_start
trim_start-NoSpace [] h = refl
trim_start-NoSpace (c ∷ s) (h, hs) = rw h

pub trim_end-NoSpace : (s : Bytes) → NoSpace s → trim_end s ≡ s
unfolding trim_end
trim_end-NoSpace [] h = refl
trim_end-NoSpace (c ∷ s) (h, hs) = rw (h, trim_end-NoSpace s hs)

collapse-NoSpace : (b : Bool) (s : Bytes) → NoSpace s → collapse b s ≡ s
unfolding collapse
collapse-NoSpace b [] h = refl
collapse-NoSpace b (c ∷ s) (h, hs) = rw (h, collapse-NoSpace false s hs)

steps-NoSpace : (s : Bytes) → NoSpace s → collapse false (trim_end (trim_start s)) ≡ s
steps-NoSpace s h = rw (trim_start-NoSpace s h, trim_end-NoSpace s h) (collapse-NoSpace false s h)

-- A text without white space is left as it is.
pub trim_and_collapse_ws-NoSpace : (s : Bytes) → NoSpace s → trim_and_collapse_ws s ≡ s
unfolding trim_and_collapse_ws
trim_and_collapse_ws-NoSpace s h = steps-NoSpace s h
