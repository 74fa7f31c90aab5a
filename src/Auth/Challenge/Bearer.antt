-- ===== src/Auth/Challenge/Bearer.antt =====
-- auth/www_authenticate.go: the search for a Bearer scheme in `ParseWWWAuthenticate`.
use mcp_remote_go.Base.{
  ℕ, zero, suc, ◌+◌, ◌-◌, ◌≤◌, ◌<◌, ◌≡◌, refl, Bool, true, false, [], ◌∷◌, Option, none, some,
  arith, ltb, ◌==◌, Bytes, length, drop, get_elem?, ltb→lt, length-drop, is_nil, Bool-cases,
  Option-cases, inl, inr, Result, ok, err, ◌≢◌,
}
use mcp_remote_go.Text.{trim_space, has_prefix}
use mcp_remote_go.Auth.Challenge.{
  Fault, out_of_fuel, BearerChallenge, index_of, is_separator, suc_index, boundary_before,
  slice_from, boundary_behind, scheme, challenge_of, parse_auth_params, before_scheme, at_scheme,
  scan, parse_www_authenticate,
}

has_prefix-length : (p s : Bytes) → has_prefix p s ≡ true → length p ≤ length s
unfolding has_prefix
has_prefix-length [] s h = omega arith
has_prefix-length (a ∷ p) [] h = cc
has_prefix-length (a ∷ p) (b ∷ s) h = ground (arith, has_prefix-length p s)

suc_index-eq-some :
    (o : Option ℕ) {i : ℕ} → suc_index o ≡ some i → (j : ℕ) × (o ≡ some j) × (i ≡ suc j)
suc_index-eq-some none h = ground arith
suc_index-eq-some (some j) h = (j, refl, ground arith)

index_of-le : (p s : Bytes) {i : ℕ} → index_of p s ≡ some i → i + length p ≤ length s
unfolding index_of
index_of-le p [] h = elim (Bool-cases (has_prefix p [])) [
  | inl yes' ↦ ground (arith, has_prefix-length p [])
  | inr no' ↦ absurd (ground arith)
]
index_of-le p (b ∷ s) h = elim (Bool-cases (has_prefix p (b ∷ s))) [
  | inl yes' ↦ ground (arith, has_prefix-length p (b ∷ s))
  | inr no' ↦
      let (j, found, shift) = suc_index-eq-some (index_of p s) (rw no' at h) in
      omega (arith, index_of-le p s found)
]

get_elem?-lt : (s : Bytes) (i : ℕ) → i < length s → (c : ℕ) × (get_elem? s i ≡ some c)
get_elem?-lt [] i h = elim h [ ]
get_elem?-lt (c ∷ s) zero h = (c, refl)
get_elem?-lt (c ∷ s) (suc i) h = get_elem?-lt s i (omega arith)

boundary_before-some :
    (header : Bytes) (pos : ℕ)
    → pos < length header
    → (b : Bool) × (boundary_before header pos ≡ some b)
unfolding boundary_before
boundary_before-some header pos h = elim (Bool-cases (pos == 0)) [
  | inl first ↦ (true, rw first)
  | inr later ↦
      let (c, e) = get_elem?-lt header (pos - 1) (omega arith) in
      (is_separator c, rw later (rw (e, boundary_before)))
]

slice_from-some : (n : ℕ) (s : Bytes) → n ≤ length s → slice_from n s ≡ some (drop n s)
unfolding slice_from
slice_from-some n s h = ground arith

-- No fault, whatever the rest of the scan gives.
abbrev pub Runs : Result Fault (Option BearerChallenge) → Type 0
Runs r = (c : Option BearerChallenge) × (r ≡ ok c)

-- The search has not run out of fuel.
abbrev pub Ends : Result Fault (Option BearerChallenge) → Type 0
Ends r = r ≢ err out_of_fuel

module _ (to_lower : Bytes → Bytes) where
  before_scheme-Runs :
      (b : Bool) (rest : Bytes) (next : Result Fault (Option BearerChallenge))
      → Runs next
      → Runs (before_scheme to_lower (some b) (some rest) next)
  unfolding before_scheme
  before_scheme-Runs false rest next h = h
  before_scheme-Runs true rest next h = elim (Bool-cases (boundary_behind rest)) [
    | inl ends ↦ (some (challenge_of (parse_auth_params to_lower (trim_space rest))), rw ends)
    | inr goes_on ↦ rw goes_on h
  ]

  at_scheme-Runs :
      (header : Bytes) (pos : ℕ) (next : Result Fault (Option BearerChallenge))
      → pos + 6 ≤ length header
      → Runs next
      → Runs (at_scheme to_lower header pos next)
  unfolding at_scheme
  at_scheme-Runs header pos next le h =
      let (b, before) = boundary_before-some header pos (omega arith) in
      rw (before, slice_from-some (pos + 6) header le)
        (before_scheme-Runs b (drop (pos + 6) header) next h)

  module _ (header lower : Bytes) where
    scan_past :
        (fuel offset : ℕ)
        → ltb offset (length lower) ≡ false
        → scan to_lower (suc fuel) header lower offset ≡ ok none
    unfolding scan
    scan_past fuel offset past = rw (past, scan)

    scan_absent :
        (fuel offset : ℕ)
        → ltb offset (length lower) ≡ true
        → index_of scheme (drop offset lower) ≡ none
        → scan to_lower (suc fuel) header lower offset ≡ ok none
    unfolding scan
    scan_absent fuel offset inside absent = rw (inside, absent, scan)

    pub scan_found :
        (fuel offset idx : ℕ)
        → ltb offset (length lower) ≡ true
        → index_of scheme (drop offset lower) ≡ some idx
        → scan to_lower (suc fuel) header lower offset
          ≡ at_scheme to_lower header
              (offset + idx)
              (scan to_lower fuel header lower (offset + idx + 6))
    unfolding scan
    scan_found fuel offset idx inside found = rw (inside, found, scan)

    found-le :
        (offset idx : ℕ)
        → ltb offset (length lower) ≡ true
        → index_of scheme (drop offset lower) ≡ some idx
        → offset + idx + 6 ≤ length lower
    found-le offset idx inside found = omega (
      arith,
      ltb→lt offset (length lower) inside,
      length-drop {0} offset lower,
      index_of-le scheme (drop offset lower) found,
    )

    scan-Runs :
        (fuel offset : ℕ)
        → offset ≤ length lower
        → length lower < offset + fuel
        → length lower ≤ length header
        → Runs (scan to_lower fuel header lower offset)
    scan-Runs zero offset in_range enough le = absurd (omega arith)
    scan-Runs (suc fuel) offset in_range enough le = elim (Bool-cases (ltb offset (length lower))) [
      | inr past ↦ (none, scan_past fuel offset past)
      | inl inside ↦ elim (Option-cases (index_of scheme (drop offset lower))) [
        | inl absent ↦ (none, scan_absent fuel offset inside absent)
        | inr (idx, found) ↦ rw (scan_found fuel offset idx inside found) (
            at_scheme-Runs header (offset + idx)
              (scan to_lower fuel header lower (offset + idx + 6))
              (omega (arith, found-le offset idx inside found))
              (scan-Runs fuel (offset + idx + 6) (found-le offset idx inside found) (omega arith)
                le))
      ]
    ]

  -- A header panics only if lowering its letters makes it longer: where the lowered text is no
  -- longer than the trimmed header, `ParseWWWAuthenticate` returns.
  pub parse_www_authenticate-Runs :
      (h : Bytes)
      → length (to_lower (trim_space h)) ≤ length (trim_space h)
      → Runs (parse_www_authenticate to_lower h)
  unfolding parse_www_authenticate
  parse_www_authenticate-Runs h le = elim (Bool-cases (is_nil (trim_space h))) [
    | inl empty ↦ (none, rw empty)
    | inr full ↦ rw full (
        scan-Runs (trim_space h) (to_lower (trim_space h)) (suc (length (to_lower (trim_space h))))
          0 (omega arith) (omega arith) le)
  ]
