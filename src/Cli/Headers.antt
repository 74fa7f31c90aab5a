-- ===== src/Cli/Headers.antt =====
-- cmd/mcp-remote-go/main.go: `parseHeaderLines`, `isValidHeaderName`, and the header map of `main`.
pub mod Valid
use mcp_remote_go.Base.{
  ℕ, Bool, true, false, not, ◌&&◌, ◌||◌, List, [], ◌∷◌, ◌++◌, Option, none, some, leb, ◌==◌,
  if◌then◌else◌, Bytes, codes, is_nil,
}
use mcp_remote_go.Text.{text_eq, trim_space, cut}

-- `strings.ContainsAny(raw, "\r\n")`.
unfoldable pub has_line_break : Bytes → Bool
has_line_break [] = false
has_line_break (c ∷ s) = c == 13 || c == 10 || has_line_break s

-- `strings.ReplaceAll(raw, "\\n", "\n")`: each backslash with an `n` behind it becomes a newline.
unfoldable pub unescape_lines : Bytes → Bytes
unescape_lines [] = []
unescape_lines (c ∷ []) = c ∷ []
unescape_lines (c ∷ d ∷ s) =
    let escaped : Bytes = 10 ∷ unescape_lines s in
    let plain : Bytes = c ∷ unescape_lines (d ∷ s) in
    if c == b'\\' && d == b'n' then escaped else plain

abbrev pub is_line_break : ℕ → Bool
is_line_break c = c == 10 || c == 13

abbrev pub cons_field : ℕ → List Bytes → List Bytes
cons_field c [] = (c ∷ []) ∷ []
cons_field c (f ∷ fs) = (c ∷ f) ∷ fs

-- The text split at each line break, empty pieces included.
unfoldable pub split_breaks : Bytes → List Bytes
split_breaks [] = [] ∷ []
split_breaks (c ∷ s) =
    if is_line_break c then [] ∷ split_breaks s else cons_field c (split_breaks s)

abbrev pub drop_empty : List Bytes → List Bytes
drop_empty [] = []
drop_empty (f ∷ fs) = if is_nil f then drop_empty fs else f ∷ drop_empty fs

-- `strings.FieldsFunc` at line breaks: the pieces that are not empty.
abbrev pub fields : Bytes → List Bytes
fields s = drop_empty (split_breaks s)

abbrev pub is_letter_or_digit : ℕ → Bool
is_letter_or_digit c =
    (leb b'a' c && leb c b'z') || (leb b'A' c && leb c b'Z') || (leb b'0' c && leb c b'9')

abbrev pub is_one_of : ℕ → Bytes → Bool
is_one_of c [] = false
is_one_of c (d ∷ s) = c == d || is_one_of c s

abbrev pub is_token_byte : ℕ → Bool
is_token_byte c = is_letter_or_digit c || is_one_of c (codes "!#$%&'*+-.^_`|~")

abbrev pub all_tokens : Bytes → Bool
all_tokens [] = true
all_tokens (c ∷ s) = is_token_byte c && all_tokens s

-- `isValidHeaderName`. A byte of a code point that is not ASCII is no token byte.
unfoldable pub is_valid_header_name : Bytes → Bool
is_valid_header_name name = not (is_nil name) && all_tokens name

-- What the loop of `parseHeaderLines` does with one line: the line that it appends, if any.
unfoldable pub header_entry : Bytes → Option Bytes
unfolding is_valid_header_name
header_entry line = elim (cut b':' line) [
  | none ↦ none
  | some (name, value) ↦ if is_valid_header_name (trim_space name) then some line else none
]

abbrev pub cons_some : Option Bytes → List Bytes → List Bytes
cons_some none ls = ls
cons_some (some l) ls = l ∷ ls

unfoldable pub header_entries : List Bytes → List Bytes
header_entries [] = []
header_entries (l ∷ ls) = cons_some (header_entry (trim_space l)) (header_entries ls)

-- `parseHeaderLines`.
unfoldable pub parse_header_lines : Bytes → List Bytes
unfolding header_entries has_line_break unescape_lines split_breaks
parse_header_lines raw =
    header_entries (fields (if has_line_break raw then raw else unescape_lines raw))

-- The header map of `main`, the newest entry of a name first; a header without a colon is left out.
unfoldable pub header_map : List Bytes → List (Bytes × Bytes) → List (Bytes × Bytes)
header_map [] m = m
header_map (h ∷ hs) m = elim (cut b':' h) [
  | none ↦ header_map hs m
  | some (name, value) ↦ header_map hs ((trim_space name, trim_space value) ∷ m)
]

-- `headerMap[name]`.
unfoldable pub map_get : Bytes → List (Bytes × Bytes) → Option Bytes
unfolding text_eq
map_get name [] = none
map_get name ((k, v) ∷ m) = if text_eq k name then some v else map_get name m
