-- ===== src/Gateway/Api/Reply/Escape.antt =====
-- What `xml_escape` writes holds no markup, and is read back by its inverse.
use prompt_cache_storage.Prelude.{
  ℕ, zero, suc, ◌<◌, length, ◌≡◌, ◌≢◌, refl, ap, ◌∙◌, true, false, Option, none, some, [], ◌∷◌,
  ◌++◌, Bytes, codes, ◌==◌, arith, All, All-append, Bool-cases, inl, inr, ==_iff,
}
use prompt_cache_storage.Prelude.Text.{strip_prefix}
use prompt_cache_storage.Gateway.Api.Reply.{escape_byte, xml_escape}

-- A byte that neither opens nor closes a tag or an attribute.
abbrev pub IsText : ℕ → Type 0
IsText c = (c ≢ b'<') × (c ≢ b'>') × (c ≢ b'"') × (c ≢ b'\'')

-- The entity in front of a text, and what follows it.
pub read_entity : Bytes → Option (ℕ × Bytes)
read_entity s = elim (strip_prefix (codes "amp;") s) [
  | some rest ↦ some (b'&', rest)
  | none ↦ elim (strip_prefix (codes "lt;") s) [
    | some rest ↦ some (b'<', rest)
    | none ↦ elim (strip_prefix (codes "gt;") s) [
      | some rest ↦ some (b'>', rest)
      | none ↦ elim (strip_prefix (codes "quot;") s) [
        | some rest ↦ some (b'"', rest)
        | none ↦ elim (strip_prefix (codes "apos;") s) [
          | some rest ↦ some (b'\'', rest)
          | none ↦ none
        ]
      ]
    ]
  ]
]

prepend : ℕ → Option Bytes → Option Bytes
prepend c none = none
prepend c (some s) = some (c ∷ s)

-- The character data that a text stands for; a round for each character.
pub unescape : ℕ → Bytes → Option Bytes
unfolding prepend read_entity
unescape zero text = none
unescape (suc fuel) [] = some []
unescape (suc fuel) (c ∷ text) = elim (c == b'&') [
  | true ↦ elim (read_entity text) [ none ↦ none | some (d, rest) ↦ prepend d (unescape fuel rest) ]
  | false ↦ prepend c (unescape fuel text)
]

-- What is known of a byte once the five tests have been made.
data Tested (c : ℕ) : Type 0 where
  amp : c ≡ b'&' → Tested c
  lt : c ≡ b'<' → Tested c
  gt : c ≡ b'>' → Tested c
  quot : c ≡ b'"' → Tested c
  apos : c ≡ b'\'' → Tested c
  plain :
      (c == b'&') ≡ false
      → (c == b'<') ≡ false
      → (c == b'>') ≡ false
      → (c == b'"') ≡ false
      → (c == b'\'') ≡ false
      → Tested c

test_byte : (c : ℕ) → Tested c
test_byte c = elim (Bool-cases (c == b'&')) [
  | inl e ↦ amp ((==_iff c b'&').0 e)
  | inr a ↦ elim (Bool-cases (c == b'<')) [
    | inl e ↦ lt ((==_iff c b'<').0 e)
    | inr b ↦ elim (Bool-cases (c == b'>')) [
      | inl e ↦ gt ((==_iff c b'>').0 e)
      | inr d ↦ elim (Bool-cases (c == b'"')) [
        | inl e ↦ quot ((==_iff c b'"').0 e)
        | inr f ↦ elim (Bool-cases (c == b'\'')) [
          | inl e ↦ apos ((==_iff c b'\'').0 e)
          | inr g ↦ plain a b d f g
        ]
      ]
    ]
  ]
]

escape_plain :
    (c : ℕ)
    → (c == b'&') ≡ false
    → (c == b'<') ≡ false
    → (c == b'>') ≡ false
    → (c == b'"') ≡ false
    → (c == b'\'') ≡ false
    → escape_byte c ≡ c ∷ []
unfolding escape_byte
escape_plain c a b d f g = rw (a, b, d, f, g)

unescape-escape_byte :
    (fuel c : ℕ) (text : Bytes)
    → unescape (suc fuel) (escape_byte c ++ text) ≡ prepend c (unescape fuel text)
unfolding unescape escape_byte strip_prefix
unescape-escape_byte fuel c text = elim (test_byte c) [
  | amp e ↦ rw e refl
  | lt e ↦ rw e refl
  | gt e ↦ rw e refl
  | quot e ↦ rw e refl
  | apos e ↦ rw e refl
  | plain a b d f g ↦ rw (a, b, d, f, g, unescape, a)
]

-- Escaped text is read back as the text that was escaped.
pub unescape-xml_escape :
    (s : Bytes) (fuel : ℕ) → length s < fuel → unescape fuel (xml_escape s) ≡ some s
unfolding xml_escape
unescape-xml_escape s zero h = absurd (omega arith)
unescape-xml_escape [] (suc fuel) h = unfold unescape in refl
unescape-xml_escape (c ∷ s) (suc fuel) h =
    unescape-escape_byte fuel c (xml_escape s)
    ∙ ap (prepend c) (unescape-xml_escape s fuel (omega arith))
    ∙ unfold prepend in refl

plain-IsText :
    (c : ℕ)
    → (c == b'<') ≡ false
    → (c == b'>') ≡ false
    → (c == b'"') ≡ false
    → (c == b'\'') ≡ false
    → IsText c
plain-IsText c b d f g =
    (λ e. ground arith, λ e. ground arith, λ e. ground arith, λ e. ground arith)

escape_byte-IsText : (c : ℕ) → All IsText (escape_byte c)
unfolding escape_byte
escape_byte-IsText c = elim (test_byte c) [
  | amp e ↦ rw e (omega arith)
  | lt e ↦ rw e (omega arith)
  | gt e ↦ rw e (omega arith)
  | quot e ↦ rw e (omega arith)
  | apos e ↦ rw e (omega arith)
  | plain a b d f g ↦ rw (a, b, d, f, g) (plain-IsText c b d f g, tt)
]

All-IsText : (s : Bytes) → All IsText (xml_escape s)
unfolding xml_escape
All-IsText [] = tt
All-IsText (c ∷ s) = All-append IsText (escape_byte c) _ (escape_byte-IsText c) (All-IsText s)

-- No text that is escaped opens or closes a tag or an attribute, and every text can be read back from
-- what it is escaped to.
pub xml_escape-IsText :
    (s : Bytes) → All IsText (xml_escape s) × (unescape (suc (length s)) (xml_escape s) ≡ some s)
xml_escape-IsText s = (All-IsText s, unescape-xml_escape s (suc (length s)) (omega arith))
