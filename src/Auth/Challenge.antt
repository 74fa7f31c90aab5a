-- ===== src/Auth/Challenge.antt =====
-- auth/www_authenticate.go: the Bearer challenge of a `WWW-Authenticate` header.
pub mod Params
pub mod Bearer
pub mod Print
pub mod Best
use mcp_remote_go.Base.{
  ℕ, zero, suc, ◌+◌, ◌-◌, Bool, true, false, not, ◌&&◌, ◌||◌, List, [], ◌∷◌, ◌++◌, Option, none,
  some, ltb, ◌==◌, if◌then◌else◌, Bytes, codes, drop, length, is_nil, get_elem?, Result, ok, err,
  ◌>>=◌,
}
use mcp_remote_go.Text.{text_eq, has_prefix, trim_space}

-- `BearerChallenge`.
pub record BearerChallenge : Type 0 where
  pub resource_metadata : Bytes
  pub realm : Bytes
  pub scope : Bytes
  pub error : Bytes
  pub error_description : Bytes

-- A run-time panic.
pub data Fault : Type 0 where
  index_out_of_range : Fault
  out_of_fuel : Fault

abbrev pub suc_index : Option ℕ → Option ℕ
suc_index none = none
suc_index (some i) = some (suc i)

-- `strings.Index(s, p)`, the substring first.
unfoldable pub index_of : Bytes → Bytes → Option ℕ
unfolding has_prefix
index_of p [] = if has_prefix p [] then some 0 else none
index_of p (b ∷ s) = if has_prefix p (b ∷ s) then some 0 else suc_index (index_of p s)

-- The bytes up to the first one that stops the scan, and the rest.
unfoldable pub span : (ℕ → Bool) → Bytes → Bytes × Bytes
span keep [] = ([], [])
span keep (c ∷ s) = if keep c then (c ∷ (span keep s).0, (span keep s).1) else ([], c ∷ s)

abbrev pub is_blank : ℕ → Bool
is_blank c = c == b' ' || c == b'\t'

abbrev pub is_separator : ℕ → Bool
is_separator c = c == b' ' || c == b'\t' || c == b','

abbrev pub is_key_byte : ℕ → Bool
is_key_byte c = not (c == b'=') && not (c == b',') && not (c == b' ') && not (c == b'\t')

abbrev pub is_value_byte : ℕ → Bool
is_value_byte c = not (c == b',') && not (c == b' ') && not (c == b'\t')

-- A quoted value behind its opening quote, and what stands behind the closing one.
unfoldable pub read_quoted : Bytes → Bytes × Bytes
read_quoted [] = ([], [])
read_quoted (c ∷ []) = if c == b'"' then ([], []) else (c ∷ [], [])
read_quoted (c ∷ d ∷ s) =
    let escaped : Bytes × Bytes = (d ∷ (read_quoted s).0, (read_quoted s).1) in
    let plain : Bytes × Bytes = (c ∷ (read_quoted (d ∷ s)).0, (read_quoted (d ∷ s)).1) in
    if c == b'\\' then escaped else if c == b'"' then ([], d ∷ s) else plain

-- A value, quoted or not.
unfoldable pub read_value : Bytes → Bytes × Bytes
unfolding read_quoted span
read_value [] = ([], [])
read_value (c ∷ s) = if c == b'"' then read_quoted s else span is_value_byte (c ∷ s)

-- `params[key]`; the newest entry of a key stands first.
unfoldable pub param : Bytes → List (Bytes × Bytes) → Bytes
param key [] = []
param key ((k, v) ∷ ps) = if text_eq k key then v else param key ps

-- Whether the byte in front of `pos` lets a scheme begin there; `none` is an index out of range.
unfoldable pub boundary_before : Bytes → ℕ → Option Bool
boundary_before header pos =
    if pos == 0
    then some true
    else elim (get_elem? header (pos - 1)) [ none ↦ none | some prev ↦ some (is_separator prev) ]

-- `s[n:]`; `none` is a slice out of range.
unfoldable pub slice_from : ℕ → Bytes → Option Bytes
slice_from n s = if ltb (length s) n then none else some (drop n s)

-- Whether a scheme may end in front of `rest`.
unfoldable pub boundary_behind : Bytes → Bool
boundary_behind [] = true
boundary_behind (c ∷ s) = is_separator c

abbrev pub scheme : Bytes
scheme = codes "bearer"

-- A value that was read, and the text behind it, under its key.
abbrev pub with_key : Bytes → Option (Bytes × Bytes) → Option ((Bytes × Bytes) × Bytes)
with_key key none = none
with_key key (some (value, rest)) = some ((key, value), rest)

-- The challenge that `ParseWWWAuthenticate` makes of its parameters.
abbrev pub challenge_of : List (Bytes × Bytes) → BearerChallenge
challenge_of params = record {
  resource_metadata = param (codes "resource_metadata") params;
  realm = param (codes "realm") params;
  scope = param (codes "scope") params;
  error = param (codes "error") params;
  error_description = param (codes "error_description") params;
}

-- `strings.ToLower` maps every letter of Unicode; the model takes it as a parameter.
module _ (to_lower : Bytes → Bytes) where
  -- One round of the loop of `parseAuthParams` behind a key: the value and the text that is left,
  -- if there is an `=`.
  unfoldable pub after_key : Bytes → Option (Bytes × Bytes)
  unfolding span read_value
  after_key s = elim (span is_blank s).1 [
    | [] ↦ none
    | c ∷ r ↦ if c == b'=' then some (read_value (span is_blank r).1) else none
  ]

  -- One round of the loop of `parseAuthParams` on `s[i:]`: the parameter that it reads and the
  -- text that is left; `none` where the loop ends or returns.
  unfoldable pub next_param : Bytes → Option ((Bytes × Bytes) × Bytes)
  unfolding span after_key
  next_param s =
      let start = (span is_separator s).1 in
      let key = to_lower (span is_key_byte start).0 in
      if is_nil start || is_nil key
      then none
      else with_key key (after_key (span is_key_byte start).1)

  -- `parseAuthParams` on `s[i:]`, on fuel for the rounds.
  unfoldable pub parse_params : ℕ → Bytes → List (Bytes × Bytes) → List (Bytes × Bytes)
  parse_params zero s params = params
  parse_params (suc fuel) s params = elim (next_param s) [
    | none ↦ params
    | some (p, rest) ↦ parse_params fuel rest (p ∷ params)
  ]

  unfoldable pub parse_auth_params : Bytes → List (Bytes × Bytes)
  unfolding parse_params next_param
  parse_auth_params s = parse_params (suc (length s)) s []

  -- The text behind the scheme ends the search if the scheme ends there.
  unfoldable pub behind_scheme :
      Option Bytes → Result Fault (Option BearerChallenge) → Result Fault (Option BearerChallenge)
  unfolding boundary_behind
  behind_scheme none next = err index_out_of_range
  behind_scheme (some rest) next =
      if boundary_behind rest
      then ok (some (challenge_of (parse_auth_params (trim_space rest))))
      else next

  unfoldable pub before_scheme :
      Option Bool
      → Option Bytes
      → Result Fault (Option BearerChallenge)
      → Result Fault (Option BearerChallenge)
  unfolding behind_scheme
  before_scheme none rest next = err index_out_of_range
  before_scheme (some false) rest next = next
  before_scheme (some true) rest next = behind_scheme rest next

  -- What one occurrence of the scheme at `pos` gives: a challenge, or the rest of the scan.
  unfoldable pub at_scheme :
      Bytes → ℕ → Result Fault (Option BearerChallenge) → Result Fault (Option BearerChallenge)
  unfolding before_scheme
  at_scheme header pos next =
      before_scheme (boundary_before header pos) (slice_from (pos + length scheme) header) next

  -- The loop of `ParseWWWAuthenticate` from `offset`, on fuel for the rounds.
  unfoldable pub scan : ℕ → Bytes → Bytes → ℕ → Result Fault (Option BearerChallenge)
  scan zero header lower offset = err out_of_fuel
  scan (suc fuel) header lower offset =
      if not (ltb offset (length lower))
      then ok none
      else elim (index_of scheme (drop offset lower)) [
        | none ↦ ok none
        | some idx ↦
            let next = scan fuel header lower (offset + idx + length scheme) in
            at_scheme header (offset + idx) next
      ]

  -- `ParseWWWAuthenticate`: `ok none` is its `false`.
  unfoldable pub parse_www_authenticate : Bytes → Result Fault (Option BearerChallenge)
  parse_www_authenticate h =
      let header = trim_space h in
      let lower = to_lower header in
      if is_nil header then ok none else scan (suc (length lower)) header lower 0

  -- The loop of `BestWWWAuthenticateHeader`; the accumulators are `firstLine` and
  -- `bearerFallback`.
  unfoldable pub best_loop : List Bytes → Bytes → Bytes → Result Fault Bytes
  best_loop [] first fallback = ok (if is_nil fallback then first else fallback)
  best_loop (h ∷ hs) first fallback =
      let line = trim_space h in
      let first' = if is_nil first then line else first in
      elim (is_nil line) [
        | true ↦ best_loop hs first fallback
        | false ↦ elim (parse_www_authenticate line) [
          | err e ↦ err e
          | ok none ↦ best_loop hs first' fallback
          | ok (some c) ↦ elim (is_nil c.resource_metadata) [
            | true ↦ best_loop hs first' (if is_nil fallback then line else fallback)
            | false ↦ ok line
          ]
        ]
      ]

  -- `BestWWWAuthenticateHeader`.
  unfoldable pub best_www_authenticate_header : List Bytes → Result Fault Bytes
  unfolding best_loop
  best_www_authenticate_header headers = best_loop headers [] []

  -- `ParseWWWAuthenticateHeaders`.
  unfoldable pub parse_www_authenticate_headers : List Bytes → Result Fault (Option BearerChallenge)
  unfolding best_www_authenticate_header parse_www_authenticate
  parse_www_authenticate_headers headers = best_www_authenticate_header headers >>= λ h.
      if is_nil h then ok none else parse_www_authenticate h
