-- ===== src/Auth/Pkce.antt =====
-- auth/pkce.go: the code verifier of the authorization request.
use mcp_remote_go.Base.{
  &&_iff, ==_iff, Bool-cases, inl, inr, if◌then◌else◌, ◌∙◌, ℕ, zero, suc, ◌%◌, ◌<◌, ◌≡◌, refl, ap,
  Bool, true, ◌||◌, ◌&&◌, [], ◌∷◌, none, some, arith, leb, ◌==◌, Bytes, codes, length, map, All,
  Result, ok, err, get_elem?,
}

abbrev pub code_verifier_length : ℕ
code_verifier_length = 64

abbrev pub code_verifier_charset : Bytes
code_verifier_charset = codes "ABCDEFGHIJKLMNOPQRSTUVWXYZabcdefghijklmnopqrstuvwxyz0123456789-._~"

-- `charset[i]`; the index is in range.
abbrev pub byte_at : Bytes → ℕ → ℕ
byte_at s i = elim (get_elem? s i) [ none ↦ 0 | some c ↦ c ]

-- One byte of the loop.
unfoldable pub charset_byte : ℕ → ℕ
charset_byte b = byte_at code_verifier_charset (b % length code_verifier_charset)

-- `GenerateCodeVerifier`: `random` is what `rand.Read` writes into the buffer, or its error.
unfoldable pub generate_code_verifier : Result Bytes Bytes → Result Bytes Bytes
unfolding charset_byte
generate_code_verifier (ok random) = ok (map charset_byte random)
generate_code_verifier (err e) = err e

-- `ComputeCodeChallenge`; SHA-256 and base64url without padding are parameters.
unfoldable pub compute_code_challenge : (Bytes → Bytes) → (Bytes → Bytes) → Bytes → Bytes
compute_code_challenge sha256 base64url verifier = base64url (sha256 verifier)

-- The unreserved characters of RFC 7636, section 4.1.
abbrev pub is_unreserved : ℕ → Bool
is_unreserved c =
    (leb b'A' c && leb c b'Z')
    || (leb b'a' c && leb c b'z')
    || (leb b'0' c && leb c b'9')
    || c == b'-'
    || c == b'.'
    || c == b'_'
    || c == b'~'

-- Every byte of the text is unreserved.
is_unreserved_text : Bytes → Bool
is_unreserved_text [] = true
is_unreserved_text (c ∷ s) = is_unreserved c && is_unreserved_text s

byte_at-unreserved :
    (s : Bytes) (i : ℕ)
    → is_unreserved_text s ≡ true
    → i < length s
    → is_unreserved (byte_at s i) ≡ true
unfolding is_unreserved_text
byte_at-unreserved [] i h lt = absurd (omega arith)
byte_at-unreserved (c ∷ s) zero h lt = ((&&_iff (is_unreserved c) (is_unreserved_text s)).0 h).0
byte_at-unreserved (c ∷ s) (suc i) h lt =
    byte_at-unreserved s i ((&&_iff (is_unreserved c) (is_unreserved_text s)).0 h).1 (omega arith)

charset-unreserved : is_unreserved_text code_verifier_charset ≡ true
unfolding is_unreserved_text
charset-unreserved = refl

charset_byte-unreserved : (b : ℕ) → is_unreserved (charset_byte b) ≡ true
unfolding charset_byte
charset_byte-unreserved b =
    byte_at-unreserved code_verifier_charset (b % 66) charset-unreserved (omega arith)

map-unreserved : (s : Bytes) → All (λ c. is_unreserved c ≡ true) (map charset_byte s)
map-unreserved [] = tt
map-unreserved (b ∷ s) = (charset_byte-unreserved b, map-unreserved s)

length-map : (f : ℕ → ℕ) (s : Bytes) → length (map f s) ≡ length s
length-map f [] = refl
length-map f (c ∷ s) = ap suc (length-map f s)

-- Where a byte stands in a text.
abbrev pub index_in : Bytes → ℕ → ℕ
index_in [] c = 0
index_in (a ∷ s) c = if a == c then 0 else suc (index_in s c)

-- The first `n` bytes of the text stand where they are found.
is_found_below : Bytes → ℕ → Bool
is_found_below s zero = true
is_found_below s (suc n) = index_in s (byte_at s n) == n && is_found_below s n

index_in-byte_at :
    (s : Bytes) (n i : ℕ) → is_found_below s n ≡ true → i < n → index_in s (byte_at s i) ≡ i
unfolding is_found_below
index_in-byte_at s zero i h lt = absurd (omega arith)
index_in-byte_at s (suc n) i h lt =
    let (found, below) = (&&_iff (index_in s (byte_at s n) == n) (is_found_below s n)).0 h in
    elim (Bool-cases (i == n)) [
      | inl same ↦ rw ((==_iff i n).0 same) ((==_iff (index_in s (byte_at s n)) n).0 found)
      | inr other ↦ index_in-byte_at s n i below (ground (arith, ==_iff i n))
    ]

charset-found : is_found_below code_verifier_charset 66 ≡ true
unfolding is_found_below
charset-found = refl

map-index_in :
    (s : Bytes) → map (index_in code_verifier_charset) (map charset_byte s) ≡ map (λ b. b % 66) s
unfolding charset_byte
map-index_in [] = refl
map-index_in (b ∷ s) =
    rw (
      index_in-byte_at code_verifier_charset 66 (b % 66) charset-found (omega arith),
      map-index_in s,
    )

-- Whatever random bytes fill the buffer, the verifier has 64 characters, between the 43 and the 128
-- of RFC 7636, and all of them are unreserved; and it keeps what is random: the place of each
-- character in the set of 66 is the random byte modulo 66.
pub generate_code_verifier-unreserved :
    (random : Bytes)
    → length random ≡ code_verifier_length
    → (v : Bytes) × (generate_code_verifier (ok random) ≡ ok v)
      × All (λ c. is_unreserved c ≡ true) v
      × (length v ≡ 64)
      × (map (index_in code_verifier_charset) v ≡ map (λ b. b % 66) random)
unfolding generate_code_verifier
generate_code_verifier-unreserved random h = (
  map charset_byte random,
  refl,
  map-unreserved random,
  length-map charset_byte random ∙ h,
  map-index_in random,
)
