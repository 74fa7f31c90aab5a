-- ===== src/Auth/Challenge/Print.antt =====
-- auth/www_authenticate.go: `ParseWWWAuthenticate` on a printed challenge.
use mcp_remote_go.Base.{
  ℕ, suc, ◌<◌, ◌≡◌, refl, sym, ◌∙◌, true, false, List, [], ◌∷◌, ◌++◌, append_assoc, Option, some,
  arith, Bytes, codes, length, drop, is_nil, map, All, reverse-append, Result, ok,
}
use mcp_remote_go.Text.{lower_byte, trim_space}
use mcp_remote_go.Text.Trim.{is_edge, starts_well, is_tidy, trim_space-tidy, trim_space-blank}
use mcp_remote_go.Auth.Challenge.{
  Fault, BearerChallenge, index_of, boundary_before, slice_from, scheme, challenge_of,
  parse_auth_params, before_scheme, at_scheme, scan, parse_www_authenticate,
}
use mcp_remote_go.Auth.Challenge.Params.{
  escape, IsKey, print_param, print_params, enter, parse_auth_params-print,
}
use mcp_remote_go.Auth.Challenge.Bearer.{scan_found}

abbrev pub IsAscii : Bytes → Type 0
IsAscii = All (λ c. c < 128)

-- What `strings.ToLower` documents for ASCII texts.
abbrev pub LowersAscii : (Bytes → Bytes) → Type 0
LowersAscii to_lower = (s : Bytes) → IsAscii s → to_lower s ≡ map lower_byte s

-- The parameters end in a quote.
print_params-quote :
    (p : Bytes × Bytes) (ps : List (Bytes × Bytes))
    → (t : Bytes) × (print_params (p ∷ ps) ≡ t ++ b'"' ∷ [])
print_params-quote p [] =
    (p.0 ++ b'=' ∷ b'"' ∷ escape p.1, sym (append_assoc p.0 (b'=' ∷ b'"' ∷ escape p.1) (b'"' ∷ [])))
print_params-quote p (q ∷ ps) =
    let (t, e) = print_params-quote q ps in
    (
      print_param p ++ b',' ∷ b' ' ∷ t,
      rw e (sym (append_assoc (print_param p) (b',' ∷ b' ' ∷ t) (b'"' ∷ []))),
    )

is_tidy-quoted : (c : ℕ) (t : Bytes) → is_edge c ≡ true → is_tidy (c ∷ (t ++ b'"' ∷ [])) ≡ true
unfolding is_tidy
is_tidy-quoted c t h = rw (reverse-append (c ∷ t) (b'"' ∷ [])) (rw h)

-- The header of one Bearer challenge.
abbrev pub print_challenge : List (Bytes × Bytes) → Bytes
print_challenge ps = codes "Bearer " ++ print_params ps

starts_well-key :
    (to_lower : Bytes → Bytes) (k t : Bytes) → IsKey to_lower k → starts_well (k ++ t) ≡ true
starts_well-key to_lower [] t h = cc (h.ne_nil)
starts_well-key to_lower (c ∷ k) t h = h.plain.0

starts_well-print_params :
    (to_lower : Bytes → Bytes) (p : Bytes × Bytes) (ps : List (Bytes × Bytes))
    → IsKey to_lower p.0
    → starts_well (print_params (p ∷ ps)) ≡ true
starts_well-print_params to_lower p [] h = starts_well-key to_lower p.0 _ h
starts_well-print_params to_lower p (q ∷ ps) h =
    rw
      (append_assoc p.0 (b'=' ∷ b'"' ∷ (escape p.1 ++ b'"' ∷ []))
        (b',' ∷ b' ' ∷ print_params (q ∷ ps)))
      (starts_well-key to_lower p.0 _ h)

print_params-tidy :
    (to_lower : Bytes → Bytes) (p : Bytes × Bytes) (ps : List (Bytes × Bytes))
    → IsKey to_lower p.0
    → is_tidy (print_params (p ∷ ps)) ≡ true
unfolding is_tidy
print_params-tidy to_lower p ps h =
    let (t, e) = print_params-quote p ps in
    rw (starts_well-print_params to_lower p ps h) (rw e (rw (reverse-append t (b'"' ∷ []))))

print_challenge-tidy :
    (p : Bytes × Bytes) (ps : List (Bytes × Bytes)) → is_tidy (print_challenge (p ∷ ps)) ≡ true
print_challenge-tidy p ps =
    let (t, e) = print_params-quote p ps in rw e (is_tidy-quoted b'B' (codes "earer " ++ t) refl)

slice_from-scheme : (c : ℕ) (s : Bytes) → slice_from 6 (codes "Bearer" ++ c ∷ s) ≡ some (c ∷ s)
unfolding slice_from
slice_from-scheme c s = ground arith

module _ (to_lower : Bytes → Bytes) where
  -- The search, once the header is trimmed and its letters are lowered.
  parse_www_authenticate-scan :
      (h header lower : Bytes)
      → trim_space h ≡ header
      → is_nil header ≡ false
      → to_lower header ≡ lower
      → parse_www_authenticate to_lower h ≡ scan to_lower (suc (length lower)) header lower 0
  unfolding parse_www_authenticate
  parse_www_authenticate-scan h header lower e n l = rw (e, n, l)

  before_scheme-printed :
      (s : Bytes) (next : Result Fault (Option BearerChallenge))
      → is_tidy s ≡ true
      → before_scheme to_lower (some true) (some (32 ∷ s)) next
        ≡ ok (some (challenge_of (parse_auth_params to_lower s)))
  unfolding before_scheme
  before_scheme-printed s next h = rw (trim_space-blank s h)

  module _ (p : Bytes × Bytes) (ps : List (Bytes × Bytes))
      (keys : All (λ q. IsKey to_lower q.0) (p ∷ ps)) where
    at_scheme-printed :
        (next : Result Fault (Option BearerChallenge))
        → at_scheme to_lower (print_challenge (p ∷ ps)) 0 next
          ≡ ok (some (challenge_of (enter [] (p ∷ ps))))
    unfolding at_scheme boundary_before
    at_scheme-printed next = rw (slice_from-scheme 32 (print_params (p ∷ ps))) (
        before_scheme-printed (print_params (p ∷ ps)) next (print_params-tidy to_lower p ps keys.0)
        ∙ rw (parse_auth_params-print to_lower p ps keys))

    index_of-printed : index_of scheme (drop 0 (map lower_byte (print_challenge (p ∷ ps)))) ≡ some 0
    unfolding index_of lower_byte
    index_of-printed = refl

    -- A header of one Bearer challenge with quoted parameters, all of it ASCII, is parsed to the
    -- challenge with the values of these parameters, the last one of a name counting. The names are
    -- not empty, of key bytes, and in lower case.
    pub parse_www_authenticate-print :
        LowersAscii to_lower
        → IsAscii (print_challenge (p ∷ ps))
        → parse_www_authenticate to_lower (print_challenge (p ∷ ps))
          ≡ ok (some (challenge_of (enter [] (p ∷ ps))))
    parse_www_authenticate-print law ascii =
        let header = print_challenge (p ∷ ps) in
        let lower = map lower_byte header in
        parse_www_authenticate-scan header header lower
          (trim_space-tidy header (print_challenge-tidy p ps)) refl (law header ascii)
        ∙ scan_found to_lower header lower (length lower) 0 0 (ground arith) index_of-printed
        ∙ at_scheme-printed (scan to_lower (length lower) header lower 6)
