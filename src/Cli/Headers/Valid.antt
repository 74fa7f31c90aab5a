-- ===== src/Cli/Headers/Valid.antt =====
-- cmd/mcp-remote-go/main.go: the headers that `parseHeaderLines` returns, and the header map.
use mcp_remote_go.Base.{
  ℕ, zero, suc, ◌≡◌, ◌∙◌, ap, refl, true, false, List, [], ◌∷◌, ◌++◌, reverse, none, some, arith,
  if◌then◌else◌, Bytes, is_nil, All, Bool-cases, Option-cases, inl, inr, reverse-append,
}
use mcp_remote_go.Text.{text_eq, trim_space, cut, skip_space, space_width, space_width_back}
use mcp_remote_go.Text.Laws.{text_eq_refl, Lacks, Lacks-append, cut-append, cut-eq-some}
use mcp_remote_go.Text.Trim.{is_tidy, trim_space-tidy}
use mcp_remote_go.Cli.Headers.{
  is_line_break, cons_field, split_breaks, drop_empty, fields, is_valid_header_name, header_entry,
  cons_some, header_entries, has_line_break, unescape_lines, parse_header_lines, header_map,
  map_get,
}

-- A byte that a text lacks is not brought in by trimming it.
module _ (b : ℕ) where
  Lacks-skip : (width : Bytes → ℕ) (n : ℕ) (s : Bytes) → Lacks b s → Lacks b (skip_space width n s)
  unfolding skip_space
  Lacks-skip width n [] h = h
  Lacks-skip width (suc n) (a ∷ s) h = Lacks-skip width n s h.1
  Lacks-skip width zero (a ∷ s) h =
      elim (width (a ∷ s))
        as (λ w. Lacks b (elim w [ zero ↦ a ∷ s | suc n ↦ skip_space width n s ])) [
          | zero ↦ h
          | suc n ↦ Lacks-skip width n s h.1
        ]

  Lacks-reverse : (s : Bytes) → Lacks b s → Lacks b (reverse s)
  Lacks-reverse [] h = h
  Lacks-reverse (a ∷ s) h =
      rw (reverse-append (a ∷ []) s)
        (Lacks-append b (reverse s) (a ∷ []) (Lacks-reverse s h.1) (h.0, tt))

  pub Lacks-trim_space : (s : Bytes) → Lacks b s → Lacks b (trim_space s)
  unfolding trim_space
  Lacks-trim_space s h =
      Lacks-reverse _
        (Lacks-skip space_width_back 0 _ (Lacks-reverse _ (Lacks-skip space_width 0 s h)))

-- A header that may be sent: a valid name, a colon and a value, on one line.
pub record IsEntry (l : Bytes) : Type 0 where
  pub name : Bytes
  pub value : Bytes
  pub split : l ≡ name ++ b':' ∷ value
  pub valid : is_valid_header_name (trim_space name) ≡ true
  pub no_newline : Lacks 10 l
  pub no_return : Lacks 13 l

abbrev OneLine : Bytes → Type 0
OneLine l = Lacks 10 l × Lacks 13 l

cons_field-OneLine :
    (c : ℕ) (fs : List Bytes)
    → is_line_break c ≡ false
    → All OneLine fs
    → All OneLine (cons_field c fs)
cons_field-OneLine c [] h hs = ground arith
cons_field-OneLine c (f ∷ fs) h hs = ground arith

split_breaks-OneLine : (s : Bytes) → All OneLine (split_breaks s)
unfolding split_breaks
split_breaks-OneLine [] = ((tt, tt), tt)
split_breaks-OneLine (c ∷ s) = elim (Bool-cases (is_line_break c)) [
  | inl break ↦ rw break ((tt, tt), split_breaks-OneLine s)
  | inr text ↦ rw text (cons_field-OneLine c (split_breaks s) text (split_breaks-OneLine s))
]

drop_empty-OneLine : (fs : List Bytes) → All OneLine fs → All OneLine (drop_empty fs)
drop_empty-OneLine [] h = h
drop_empty-OneLine (f ∷ fs) h = elim (Bool-cases (is_nil f)) [
  | inl empty ↦ rw empty (drop_empty-OneLine fs h.1)
  | inr full ↦ rw full (h.0, drop_empty-OneLine fs h.1)
]

header_entry-none : (l : Bytes) → cut b':' l ≡ none → header_entry l ≡ none
unfolding header_entry
header_entry-none l h = rw (h, header_entry)

header_entry-some :
    (l name value : Bytes)
    → cut b':' l ≡ some (name, value)
    → header_entry l ≡ (if is_valid_header_name (trim_space name) then some l else none)
unfolding header_entry
header_entry-some l name value h = rw (h, header_entry)

cons_some-IsEntry :
    (l : Bytes) (ls : List Bytes)
    → OneLine l
    → All IsEntry ls
    → All IsEntry (cons_some (header_entry l) ls)
cons_some-IsEntry l ls one h = elim (Option-cases (cut b':' l)) [
  | inl none' ↦ rw (header_entry-none l none') h
  | inr ((name, value), found) ↦
      rw (header_entry-some l name value found)
        (elim (Bool-cases (is_valid_header_name (trim_space name))) [
          | inr invalid ↦ rw invalid h
          | inl valid ↦ rw valid (
            record {
              name = name;
              value = value;
              split = (cut-eq-some b':' l found).0;
              valid = valid;
              no_newline = one.0;
              no_return = one.1;
            },
            h,
          )
        ])
]

header_entries-IsEntry : (ls : List Bytes) → All OneLine ls → All IsEntry (header_entries ls)
unfolding header_entries
header_entries-IsEntry [] h = tt
header_entries-IsEntry (l ∷ ls) h =
    cons_some-IsEntry (trim_space l) (header_entries ls)
      (Lacks-trim_space 10 l h.0.0, Lacks-trim_space 13 l h.0.1) (header_entries-IsEntry ls h.1)

-- Whatever stands in a variable, each header that `parseHeaderLines` returns has a name before its
-- first colon that is valid for HTTP once trimmed, and holds no line break.
pub parse_header_lines-IsEntry : (raw : Bytes) → All IsEntry (parse_header_lines raw)
unfolding parse_header_lines
parse_header_lines-IsEntry raw =
    let text = if has_line_break raw then raw else unescape_lines raw in
    header_entries-IsEntry (fields text)
      (drop_empty-OneLine (split_breaks text) (split_breaks-OneLine text))

header_map-append :
    (hs ks : List Bytes) (m : List (Bytes × Bytes))
    → header_map (hs ++ ks) m ≡ header_map ks (header_map hs m)
unfolding header_map
header_map-append [] ks m = refl
header_map-append (h ∷ hs) ks m = elim (Option-cases (cut b':' h)) [
  | inl none' ↦ rw (none', header_map) (header_map-append hs ks m)
  | inr ((name, value), found) ↦
      rw (found, header_map) (header_map-append hs ks ((trim_space name, trim_space value) ∷ m))
]

header_map_one :
    (h name value : Bytes) (m : List (Bytes × Bytes))
    → cut b':' h ≡ some (name, value)
    → header_map (h ∷ []) m ≡ (trim_space name, trim_space value) ∷ m
unfolding header_map
header_map_one h name value m found = rw (found, header_map)

-- The header has another name, or none.
abbrev pub IsOtherHeader : Bytes → Bytes → Type 0
IsOtherHeader name h = elim (cut b':' h) [
  | none ↦ Unit
  | some p ↦ text_eq (trim_space p.0) name ≡ false
]

map_get-others :
    (name : Bytes) (hs : List Bytes) (m : List (Bytes × Bytes))
    → All (IsOtherHeader name) hs
    → map_get name (header_map hs m) ≡ map_get name m
unfolding header_map map_get
map_get-others name [] m h = refl
map_get-others name (l ∷ hs) m h = elim (Option-cases (cut b':' l)) [
  | inl none' ↦ rw (none', header_map) (map_get-others name hs m h.1)
  | inr ((k, v), found) ↦
      let other = rw (found, IsOtherHeader) at h.0 in
      rw (found, header_map)
        (map_get-others name hs ((trim_space k, trim_space v) ∷ m) h.1 ∙ rw other)
]

-- Of several headers with one name the last one counts in the map that `main` makes, whatever
-- stands before it and whatever headers of other names stand behind it. The name holds no colon and
-- has no white space at its ends.
pub map_get-header_map :
    (hs : List Bytes) (name value : Bytes) (after : List Bytes)
    → is_tidy name ≡ true
    → Lacks b':' name
    → All (IsOtherHeader name) after
    → map_get name (header_map (hs ++ (name ++ b':' ∷ value) ∷ after) []) ≡ some (trim_space value)
unfolding map_get
map_get-header_map hs name value after tidy free others =
    let entry = name ++ b':' ∷ value in
    ap (map_get name) (header_map-append hs (entry ∷ after) [])
    ∙ ap (map_get name) (header_map-append (entry ∷ []) after (header_map hs []))
    ∙ map_get-others name after (header_map (entry ∷ []) (header_map hs [])) others
    ∙ rw (header_map_one entry name value (header_map hs []) (cut-append b':' name value free))
        (rw (trim_space-tidy name tidy, text_eq_refl name))
