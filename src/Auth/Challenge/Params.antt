-- ===== src/Auth/Challenge/Params.antt =====
-- auth/www_authenticate.go: `parseAuthParams` on printed parameters.
use mathlib.Core.Bool.{false≢true}
use mcp_remote_go.Base.{
  ℕ, zero, suc, ◌≤◌, ◌<◌, ◌≡◌, refl, sym, ◌∙◌, Bool, true, false, ◌||◌, List, [], ◌∷◌, ◌++◌,
  append_assoc, none, some, arith, ◌==◌, if◌then◌else◌, Bytes, length, length-append, is_nil, All,
  Bool-cases, inl, inr,
}
use mcp_remote_go.Text.Trim.{is_edge}
use mcp_remote_go.Auth.Challenge.{
  span, is_separator, is_key_byte, read_quoted, next_param, parse_params, parse_auth_params,
}

-- A backslash stands before each quote and each backslash.
abbrev pub escape : Bytes → Bytes
escape [] = []
escape (c ∷ s) = if c == b'"' || c == b'\\' then b'\\' ∷ c ∷ escape s else c ∷ escape s

-- `key="value"`.
abbrev pub print_param : Bytes × Bytes → Bytes
print_param p = p.0 ++ b'=' ∷ b'"' ∷ (escape p.1 ++ b'"' ∷ [])

-- The parameters of a challenge, each followed by a comma and a blank but for the last one.
abbrev pub print_params : List (Bytes × Bytes) → Bytes
print_params [] = []
print_params (p ∷ []) = print_param p
print_params (p ∷ q ∷ ps) = print_param p ++ b',' ∷ b' ' ∷ print_params (q ∷ ps)

read_quoted_plain :
    (c : ℕ) (s : Bytes)
    → is_nil s ≡ false
    → (c == b'"' || c == b'\\') ≡ false
    → read_quoted (c ∷ s) ≡ (c ∷ (read_quoted s).0, (read_quoted s).1)
unfolding read_quoted
read_quoted_plain c [] ne h = cc
read_quoted_plain c (d ∷ s) ne h = ground arith

read_quoted_escaped :
    (c : ℕ) (s : Bytes) → read_quoted (b'\\' ∷ c ∷ s) ≡ (c ∷ (read_quoted s).0, (read_quoted s).1)
unfolding read_quoted
read_quoted_escaped c s = refl

read_quoted_close : (rest : Bytes) → read_quoted (b'"' ∷ rest) ≡ ([], rest)
unfolding read_quoted
read_quoted_close [] = refl
read_quoted_close (c ∷ rest) = refl

is_nil-append_cons : (s : Bytes) (c : ℕ) (t : Bytes) → is_nil (s ++ c ∷ t) ≡ false
is_nil-append_cons [] c t = refl
is_nil-append_cons (a ∷ s) c t = refl

read_quoted-escape : (v rest : Bytes) → read_quoted (escape v ++ b'"' ∷ rest) ≡ (v, rest)
read_quoted-escape [] rest = read_quoted_close rest
read_quoted-escape (c ∷ v) rest = elim (Bool-cases (c == b'"' || c == b'\\')) [
  | inl special ↦
      rw special (read_quoted_escaped c (escape v ++ b'"' ∷ rest) ∙ rw (read_quoted-escape v rest))
  | inr plain ↦ rw plain (
      read_quoted_plain c (escape v ++ b'"' ∷ rest) (is_nil-append_cons (escape v) b'"' rest) plain
      ∙ rw (read_quoted-escape v rest))
]

-- A scan takes all bytes that it may, up to one that stops it.
pub span-All :
    (keep : ℕ → Bool) (s : Bytes) (c : ℕ) (t : Bytes)
    → All (λ b. keep b ≡ true) s
    → keep c ≡ false
    → span keep (s ++ c ∷ t) ≡ (s, c ∷ t)
unfolding span
span-All keep [] c t hs hc = rw hc
span-All keep (a ∷ s) c t hs hc = rw hs.0 (rw (span-All keep s c t hs.1 hc))

-- A parameter name: ASCII bytes that the parser takes for a key, in lower case.
pub record IsKey (to_lower : Bytes → Bytes) (k : Bytes) : Type 0 where
  pub bytes : All (λ b. is_key_byte b ≡ true) k
  pub plain : All (λ b. is_edge b ≡ true) k
  pub ne_nil : is_nil k ≡ false
  pub lower : to_lower k ≡ k

-- The text that `parseAuthParams` has in front of it behind one parameter.
abbrev behind : List (Bytes × Bytes) → Bytes
behind [] = []
behind (p ∷ ps) = b',' ∷ b' ' ∷ print_params (p ∷ ps)

print_params-cons :
    (p : Bytes × Bytes) (ps : List (Bytes × Bytes))
    → print_params (p ∷ ps) ≡ p.0 ++ b'=' ∷ b'"' ∷ (escape p.1 ++ b'"' ∷ behind ps)
print_params-cons p [] = refl
print_params-cons p (q ∷ ps) =
    append_assoc p.0 (b'=' ∷ b'"' ∷ (escape p.1 ++ b'"' ∷ [])) (behind (q ∷ ps))
    ∙ rw (append_assoc (escape p.1) (b'"' ∷ []) (behind (q ∷ ps)))

-- The entries that the parameters leave in the map, the newest first.
abbrev pub enter : List (Bytes × Bytes) → List (Bytes × Bytes) → List (Bytes × Bytes)
enter params [] = params
enter params (p ∷ ps) = enter (p ∷ params) ps

length-print_params :
    (p : Bytes × Bytes) (ps : List (Bytes × Bytes)) → length ps < length (print_params (p ∷ ps))
length-print_params p [] =
    omega (arith, length-append {0} p.0 (b'=' ∷ b'"' ∷ (escape p.1 ++ b'"' ∷ [])))
length-print_params p (q ∷ ps) = omega (
  arith,
  length-append {0} (print_param p) (b',' ∷ b' ' ∷ print_params (q ∷ ps)),
  length-print_params q ps,
)

module _ (to_lower : Bytes → Bytes) where
  -- One round of the loop reads one parameter, behind any separators.
  next_param-printed :
      (s k v rest : Bytes)
      → IsKey to_lower k
      → (span is_separator s).1 ≡ k ++ b'=' ∷ b'"' ∷ (escape v ++ b'"' ∷ rest)
      → next_param to_lower s ≡ some ((k, v), rest)
  unfolding next_param
  next_param-printed s k v rest h e =
      let tail = b'"' ∷ (escape v ++ b'"' ∷ rest) in
      rw (
        e,
        span-All is_key_byte k b'=' tail h.bytes refl,
        h.lower,
        is_nil-append_cons k b'=' tail,
        h.ne_nil,
        read_quoted-escape v rest,
      )

  next_param_nil : next_param to_lower [] ≡ none
  unfolding next_param
  next_param_nil = refl

  -- No separator stands in front of a key.
  span-key : (k t : Bytes) → IsKey to_lower k → (span is_separator (k ++ t)).1 ≡ k ++ t
  unfolding span
  span-key [] t h = absurd (false≢true (sym h.ne_nil))
  span-key (c ∷ k) t h = ground (arith, h.bytes.0)

  start-printed :
      (p : Bytes × Bytes) (ps : List (Bytes × Bytes))
      → IsKey to_lower p.0
      → (span is_separator (print_params (p ∷ ps))).1
        ≡ p.0 ++ b'=' ∷ b'"' ∷ (escape p.1 ++ b'"' ∷ behind ps)
  start-printed p ps h = rw (print_params-cons p ps) (span-key p.0 _ h)

  start-behind :
      (p : Bytes × Bytes) (ps : List (Bytes × Bytes))
      → IsKey to_lower p.0
      → (span is_separator (behind (p ∷ ps))).1
        ≡ p.0 ++ b'=' ∷ b'"' ∷ (escape p.1 ++ b'"' ∷ behind ps)
  unfolding span
  start-behind p ps h = start-printed p ps h

  parse_params-some :
      (fuel : ℕ) (s : Bytes) (p : Bytes × Bytes) (rest : Bytes) (params : List (Bytes × Bytes))
      → next_param to_lower s ≡ some (p, rest)
      → parse_params to_lower (suc fuel) s params ≡ parse_params to_lower fuel rest (p ∷ params)
  unfolding parse_params
  parse_params-some fuel s p rest params e = rw (e, parse_params)

  parse_params_nil :
      (fuel : ℕ) (params : List (Bytes × Bytes)) → parse_params to_lower fuel [] params ≡ params
  unfolding parse_params
  parse_params_nil zero params = refl
  parse_params_nil (suc fuel) params = rw (next_param_nil, parse_params)

  parse_params-behind :
      (fuel : ℕ) (ps params : List (Bytes × Bytes))
      → length ps ≤ fuel
      → All (λ p. IsKey to_lower p.0) ps
      → parse_params to_lower fuel (behind ps) params ≡ enter params ps
  parse_params-behind fuel [] params le h = parse_params_nil fuel params
  parse_params-behind zero (p ∷ ps) params le h = absurd (omega arith)
  parse_params-behind (suc fuel) (p ∷ ps) params le h =
      parse_params-some fuel (behind (p ∷ ps)) p (behind ps) params
        (next_param-printed (behind (p ∷ ps)) p.0 p.1 (behind ps) h.0 (start-behind p ps h.0))
      ∙ parse_params-behind fuel ps (p ∷ params) (omega arith) h.1

  -- Parameters with quoted values are read back, whatever bytes the values hold, each entered into
  -- the map behind those before it. The names are not empty, of key bytes, and in lower case.
  pub parse_auth_params-print :
      (p : Bytes × Bytes) (ps : List (Bytes × Bytes))
      → All (λ q. IsKey to_lower q.0) (p ∷ ps)
      → parse_auth_params to_lower (print_params (p ∷ ps)) ≡ enter [] (p ∷ ps)
  unfolding parse_auth_params
  parse_auth_params-print p ps h =
      parse_params-some (length (print_params (p ∷ ps))) (print_params (p ∷ ps)) p (behind ps) [] (
        next_param-printed (print_params (p ∷ ps)) p.0 p.1 (behind ps) h.0 (start-printed p ps h.0))
      ∙ parse_params-behind (length (print_params (p ∷ ps))) ps (p ∷ [])
          (omega (arith, length-print_params p ps)) h.1
