-- ===== src/Text.antt =====
-- What the program uses of Go's `strings` and `bytes` packages, over lists of bytes.
pub mod Laws
pub mod Trim
use mcp_remote_go.Base.{
  ℕ, zero, suc, ◌+◌, ◌-◌, Bool, true, false, not, ◌&&◌, ◌||◌, List, [], ◌∷◌, ◌++◌, reverse, Option,
  none, some, leb, ltb, ◌==◌, if◌then◌else◌, Bytes, drop, length,
}

-- `==` of two texts.
unfoldable pub text_eq : Bytes → Bytes → Bool
text_eq [] [] = true
text_eq (a ∷ s) (b ∷ t) = a == b && text_eq s t
text_eq _ _ = false

-- `strings.HasPrefix(s, p)`, the prefix first.
unfoldable pub has_prefix : Bytes → Bytes → Bool
has_prefix [] s = true
has_prefix (a ∷ p) [] = false
has_prefix (a ∷ p) (b ∷ s) = a == b && has_prefix p s

-- `strings.Contains(s, p)`, the substring first.
unfoldable pub contains : Bytes → Bytes → Bool
unfolding has_prefix
contains p [] = has_prefix p []
contains p (b ∷ s) = has_prefix p (b ∷ s) || contains p s

-- The answer of `cut` with one more byte in front.
abbrev pub cons_before : ℕ → Option (Bytes × Bytes) → Option (Bytes × Bytes)
cons_before a none = none
cons_before a (some (before, after)) = some (a ∷ before, after)

-- `strings.Cut(s, sep)` at a one-byte separator: the text before it and the text behind it.
unfoldable pub cut : ℕ → Bytes → Option (Bytes × Bytes)
cut sep [] = none
cut sep (a ∷ s) = if a == sep then some ([], s) else cons_before a (cut sep s)

-- The ASCII white space of `unicode.IsSpace`.
abbrev pub is_space : ℕ → Bool
is_space c = (leb 9 c && leb c 13) || c == 32

-- White space of two and of three bytes in UTF-8: U+0085 and U+00A0; U+1680, U+2000 to U+200A,
-- U+2028, U+2029, U+202F, U+205F and U+3000.
abbrev pub is_wide_space : ℕ → ℕ → Bool
is_wide_space a b = a == 0xc2 && (b == 0x85 || b == 0xa0)

abbrev pub is_wider_space : ℕ → ℕ → ℕ → Bool
is_wider_space a b c =
    (a == 0xe1 && b == 0x9a && c == 0x80)
    || (a == 0xe2
        && b == 0x80
        && ((leb 0x80 c && leb c 0x8a) || c == 0xa8 || c == 0xa9 || c == 0xaf))
    || (a == 0xe2 && b == 0x81 && c == 0x9f)
    || (a == 0xe3 && b == 0x80 && c == 0x80)

-- How many bytes the white space takes that a text begins with, or 0.
unfoldable pub space_width : Bytes → ℕ
space_width [] = 0
space_width (a ∷ []) = if is_space a then 1 else 0
space_width (a ∷ b ∷ []) = if is_space a then 1 else if is_wide_space a b then 2 else 0
space_width (a ∷ b ∷ c ∷ s) =
    if is_space a then 1 else if is_wide_space a b then 2 else if is_wider_space a b c then 3 else 0

-- The same for the reverse of a text, which begins with its last byte.
unfoldable pub space_width_back : Bytes → ℕ
space_width_back [] = 0
space_width_back (a ∷ []) = if is_space a then 1 else 0
space_width_back (a ∷ b ∷ []) = if is_space a then 1 else if is_wide_space b a then 2 else 0
space_width_back (a ∷ b ∷ c ∷ s) =
    if is_space a then 1 else if is_wide_space b a then 2 else if is_wider_space c b a then 3 else 0

-- Drops `n` bytes and then white space as long as there is some.
unfoldable pub skip_space : (Bytes → ℕ) → ℕ → Bytes → Bytes
skip_space width n [] = []
skip_space width (suc n) (a ∷ s) = skip_space width n s
skip_space width zero (a ∷ s) = elim (width (a ∷ s)) [ zero ↦ a ∷ s | suc n ↦ skip_space width n s ]

-- `strings.TrimSpace`, `bytes.TrimSpace`.
unfoldable pub trim_space : Bytes → Bytes
unfolding skip_space space_width space_width_back
trim_space s = reverse (skip_space space_width_back 0 (reverse (skip_space space_width 0 s)))

-- `unicode.ToLower` of an ASCII byte.
unfoldable pub lower_byte : ℕ → ℕ
lower_byte c = if leb b'A' c && leb c b'Z' then c + 32 else c

-- `strings.EqualFold(s, t)` at texts whose letters have no case variant outside ASCII.
unfoldable pub equal_fold : Bytes → Bytes → Bool
unfolding lower_byte
equal_fold [] [] = true
equal_fold (a ∷ s) (b ∷ t) = lower_byte a == lower_byte b && equal_fold s t
equal_fold _ _ = false
