-- ===== src/Auth/Challenge/Best.antt =====
-- auth/www_authenticate.go: `BestWWWAuthenticateHeader` and a description of what it chooses.
use mcp_remote_go.Base.{
  ◌≡◌, refl, sym, ap, ◌∙◌, Bool, true, false, not, List, [], ◌∷◌, Option, none, some, arith,
  if◌then◌else◌, Bytes, is_nil, Bool-cases, Option-cases, inl, inr, ok, All,
}
use mcp_remote_go.Text.{trim_space}
use mcp_remote_go.Auth.Challenge.{
  BearerChallenge, parse_www_authenticate, best_loop, best_www_authenticate_header,
}

-- The lines with anything in them, trimmed.
abbrev pub full_lines : List Bytes → List Bytes
full_lines [] = []
full_lines (h ∷ hs) = if is_nil (trim_space h) then full_lines hs else trim_space h ∷ full_lines hs

-- The first text that passes the test, or the empty one.
abbrev pub find_first : (Bytes → Bool) → List Bytes → Bytes
find_first test [] = []
find_first test (l ∷ ls) = if test l then l else find_first test ls

abbrev pub or_else : Bytes → Bytes → Bytes
or_else [] t = t
or_else (c ∷ s) t = c ∷ s

abbrev pub is_bearer : Option BearerChallenge → Bool
is_bearer none = false
is_bearer (some c) = true

abbrev pub has_metadata : Option BearerChallenge → Bool
has_metadata none = false
has_metadata (some c) = not (is_nil c.resource_metadata)

module _ (to_lower : Bytes → Bytes) (parse : Bytes → Option BearerChallenge) where
  -- The parser does not panic on the line, and finds what `parse` says.
  abbrev pub Parses : Bytes → Type 0
  Parses l = parse_www_authenticate to_lower l ≡ ok (parse l)

  choose : List Bytes → Bytes → Bytes → Bytes
  choose ls first fallback = or_else (find_first (λ l. has_metadata (parse l)) ls) (
      or_else (or_else fallback (find_first (λ l. is_bearer (parse l)) ls))
        (or_else first (find_first (λ l. true) ls)))

  choose_nil :
      (first fallback : Bytes)
      → choose [] first fallback ≡ (if is_nil fallback then first else fallback)
  unfolding choose
  choose_nil [] [] = refl
  choose_nil (a ∷ s) [] = refl
  choose_nil [] (b ∷ t) = refl
  choose_nil (a ∷ s) (b ∷ t) = refl

  module _ (l : Bytes) (ls : List Bytes) (full : is_nil l ≡ false) where
    choose_metadata :
        (c : BearerChallenge) (first fallback : Bytes)
        → parse l ≡ some c
        → is_nil c.resource_metadata ≡ false
        → choose (l ∷ ls) first fallback ≡ l
    unfolding choose
    choose_metadata c first fallback e m = ground arith

    choose_bearer :
        (c : BearerChallenge) (first fallback : Bytes)
        → parse l ≡ some c
        → is_nil c.resource_metadata ≡ true
        → choose (l ∷ ls) first fallback
          ≡ choose ls (if is_nil first then l else first) (if is_nil fallback then l else fallback)
    unfolding choose
    choose_bearer c first fallback e m = ground arith

    choose_other :
        (first fallback : Bytes)
        → parse l ≡ none
        → choose (l ∷ ls) first fallback ≡ choose ls (if is_nil first then l else first) fallback
    unfolding choose
    choose_other first fallback e = ground arith

  best_loop-choose :
      (hs : List Bytes) (first fallback : Bytes)
      → All Parses (full_lines hs)
      → best_loop to_lower hs first fallback ≡ ok (choose (full_lines hs) first fallback)
  unfolding best_loop
  best_loop-choose [] first fallback valid = rw (choose_nil first fallback)
  best_loop-choose (h ∷ hs) first fallback valid = elim (Bool-cases (is_nil (trim_space h))) [
    | inl empty ↦ rw (empty, best_loop) (best_loop-choose hs first fallback (rw empty at valid))
    | inr full ↦
        let line = trim_space h in
        let valid' = rw full at valid in
        let first' = if is_nil first then line else first in
        let fallback' = if is_nil fallback then line else fallback in
        elim (Option-cases (parse line)) [
          | inl other ↦
              rw (full, valid'.0, other, best_loop)
                (best_loop-choose hs first' fallback valid'.1
                  ∙ ap ok (sym (choose_other line (full_lines hs) full first fallback other)))
          | inr (c, found) ↦ elim (Bool-cases (is_nil c.resource_metadata)) [
            | inl bare ↦
                rw (full, valid'.0, found, bare, best_loop)
                  (best_loop-choose hs first' fallback' valid'.1
                    ∙ ap ok
                        (sym (choose_bearer line (full_lines hs) full c first fallback found bare)))
            | inr rich ↦
                rw (full, valid'.0, found, rich, best_loop)
                  (ap ok
                    (sym (choose_metadata line (full_lines hs) full c first fallback found rich)))
          ]
        ]
  ]

  -- Where none of the lines that are given makes the parser panic, trimmed and blank ones left out,
  -- and `parse` is what it finds in them, `BestWWWAuthenticateHeader` returns the first trimmed line
  -- whose Bearer challenge has a `resource_metadata`; if there is none, the first with a Bearer
  -- challenge; if there is none either, the first line that is not blank, or the empty text.
  pub best_www_authenticate_header_lem :
      (headers : List Bytes)
      → All Parses (full_lines headers)
      → best_www_authenticate_header to_lower headers
        ≡ ok (
            or_else (find_first (λ l. has_metadata (parse l)) (full_lines headers)) (
              or_else
                (find_first (λ l. is_bearer (parse l)) (full_lines headers))
                (find_first (λ l. true) (full_lines headers))))
  unfolding best_www_authenticate_header choose
  best_www_authenticate_header_lem headers valid = best_loop-choose headers [] [] valid
