-- ===== src/Tests/Challenges.antt =====
-- Bearer challenges and code verifiers: auth/www_authenticate.go and auth/pkce.go.
use mcp_remote_go.Base.{
  ◌%◌, ◌≡◌, ◌≤◌, refl, true, List, [], ◌∷◌, map, Option, some, arith, Bytes, codes, length, All, ok,
  err,
}
use mcp_remote_go.Text.{
  lower_byte, trim_space, skip_space, space_width, space_width_back, has_prefix,
}
use mcp_remote_go.Auth.Challenge.{
  index_out_of_range, BearerChallenge, challenge_of, scan, parse_www_authenticate,
  best_www_authenticate_header, index_of, at_scheme, before_scheme, behind_scheme, boundary_before,
  slice_from,
}
use mcp_remote_go.Auth.Challenge.Params.{IsKey}
use mcp_remote_go.Auth.Challenge.Print.{parse_www_authenticate-print}
use mcp_remote_go.Auth.Challenge.Bearer.{Runs, parse_www_authenticate-Runs}
use mcp_remote_go.Auth.Challenge.Best.{
  full_lines, find_first, or_else, is_bearer, has_metadata, best_www_authenticate_header_lem,
}
use mcp_remote_go.Auth.Pkce.{
  index_in, code_verifier_charset, is_unreserved, generate_code_verifier,
  generate_code_verifier-unreserved,
}

abbrev lower : Bytes → Bytes
lower s = map lower_byte s

abbrev realm : Bytes × Bytes
realm = (codes "realm", codes "a \"b\" \\c")

abbrev scope : Bytes × Bytes
scope = (codes "scope", codes "read, write")

realm-IsKey : IsKey lower (codes "realm")
unfolding lower_byte
realm-IsKey = record { bytes = ground arith; plain = ground arith; ne_nil = refl; lower = refl }

scope-IsKey : IsKey lower (codes "scope")
unfolding lower_byte
scope-IsKey = record { bytes = ground arith; plain = ground arith; ne_nil = refl; lower = refl }

parse_www_authenticate-print_example :
    parse_www_authenticate lower (codes "Bearer realm=\"a \\\"b\\\" \\\\c\", scope=\"read, write\"")
    ≡ ok (some (challenge_of (scope ∷ realm ∷ [])))
parse_www_authenticate-print_example =
    parse_www_authenticate-print lower realm (scope ∷ []) (realm-IsKey, (scope-IsKey, tt))
      (λ s ascii. refl) (ground arith)

abbrev two_schemes : Bytes
two_schemes = codes "Basic realm=\"x\", Bearer scope=\"y\""

length-lower : (s : Bytes) → length (lower s) ≤ length s
length-lower [] = omega arith
length-lower (c ∷ s) = omega (arith, length-lower s)

parse_www_authenticate-Runs_example : Runs (parse_www_authenticate lower two_schemes)
parse_www_authenticate-Runs_example =
    parse_www_authenticate-Runs lower two_schemes (length-lower (trim_space two_schemes))

abbrev parsed : Bytes → Option BearerChallenge
parsed h = (parse_www_authenticate-Runs lower h (length-lower (trim_space h))).0

abbrev header_lines : List Bytes
header_lines = codes "Basic" ∷ codes " " ∷ codes "Bearer scope=\"y\"" ∷ []

best_www_authenticate_header_lem_example :
    best_www_authenticate_header lower header_lines
    ≡ ok (
        or_else (find_first (λ l. has_metadata (parsed l)) (full_lines header_lines)) (
          or_else
            (find_first (λ l. is_bearer (parsed l)) (full_lines header_lines))
            (find_first (λ l. true) (full_lines header_lines))))
best_www_authenticate_header_lem_example =
    best_www_authenticate_header_lem lower parsed header_lines (
      unfold trim_space skip_space space_width space_width_back in
      (
        (parse_www_authenticate-Runs lower (codes "Basic") (length-lower (codes "Basic"))).1,
        (
          (parse_www_authenticate-Runs lower (codes "Bearer scope=\"y\"")
              (length-lower (codes "Bearer scope=\"y\""))).1,
          tt,
        ),
      ))

-- A lowering that makes a text longer by one byte makes the parser read behind the header.
faulty_lowering :
    parse_www_authenticate (λ s. codes "xx bearer") (codes "y") ≡ err index_out_of_range
unfolding parse_www_authenticate trim_space skip_space space_width space_width_back scan index_of
    has_prefix at_scheme before_scheme behind_scheme boundary_before slice_from
faulty_lowering = refl

abbrev random_bytes : Bytes
random_bytes = codes "0123456789abcdef0123456789abcdef0123456789abcdef0123456789abcdef"

generate_code_verifier-unreserved_example :
    (v : Bytes) × (generate_code_verifier (ok random_bytes) ≡ ok v)
    × All (λ c. is_unreserved c ≡ true) v
    × (length v ≡ 64)
    × (map (index_in code_verifier_charset) v ≡ map (λ b. b % 66) random_bytes)
generate_code_verifier-unreserved_example = generate_code_verifier-unreserved random_bytes refl
