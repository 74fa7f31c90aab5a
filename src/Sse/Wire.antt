-- ===== src/Sse/Wire.antt =====
-- How a server writes an event, and the reader of proxy/sse_reader.go on one line of it.
use mcp_remote_go.Base.{
  Bool, if◌then◌else◌, ℕ, ◌≡◌, refl, ◌∙◌, true, false, List, [], ◌∷◌, ◌++◌, none, Bytes, codes,
  is_nil, map, All,
}
use mcp_remote_go.Text.Laws.{Lacks}
use mcp_remote_go.Text.{trim_space}
use mcp_remote_go.Text.Trim.{is_tidy, pad, kept, trim_space-field, trim_space-kept}
use mcp_remote_go.Sse.{SseEvent, add_data, parse_trimmed, parse_line, cons_line, split_lines}

-- A text that stands in a field of an event: one line, with no white space at its ends.
pub record IsField (s : Bytes) : Type 0 where
  pub tidy : is_tidy s ≡ true
  pub one_line : Lacks 10 s

-- An event as the server has it: its data is a list of lines. A server that is `spaced` writes a
-- blank behind each colon.
pub record Message : Type 0 where
  pub spaced : Bool
  pub event : Bytes
  pub first : Bytes
  pub more : List Bytes
  pub id : Bytes

pub record IsMessage (m : Message) : Type 0 where
  pub event_field : IsField m.event
  pub first_field : IsField m.first
  pub first_ne_nil : is_nil m.first ≡ false
  pub more_fields : All IsField m.more
  pub id_field : IsField m.id

-- The line of a field that is written only if it has a value.
abbrev pub line_if_any : Bool → Bytes → Bytes → List Bytes
line_if_any spaced name s = if is_nil s then [] else (name ++ pad spaced s) ∷ []

abbrev pub data_line : Bool → Bytes → Bytes
data_line spaced s = codes "data:" ++ pad spaced s

abbrev pub data_lines : Message → List Bytes
data_lines m = data_line m.spaced m.first ∷ (map (data_line m.spaced) m.more ++ [] ∷ [])

-- The lines of an event, without their ends.
unfoldable pub wire_lines : Message → List Bytes
wire_lines m =
    line_if_any m.spaced (codes "event:") m.event
    ++ (line_if_any m.spaced (codes "id:") m.id ++ data_lines m)

-- The lines of a text, one behind the other.
abbrev pub join_lines : Bytes → List Bytes → Bytes
join_lines s [] = s
join_lines s (l ∷ ls) = join_lines (s ++ 10 ∷ l) ls

-- The event that the handler is to be called with.
abbrev pub event_of : Message → SseEvent
event_of m = record { event = m.event; payload = join_lines m.first m.more; id = m.id }

abbrev pub end_line : Bytes → Bytes
end_line l = l ++ 10 ∷ []

abbrev pub unlines : List Bytes → Bytes
unlines [] = []
unlines (l ∷ ls) = end_line l ++ unlines ls

cons_line-append :
    (c : ℕ) (l : Bytes) (p : List Bytes × Bytes) → cons_line c (l ∷ p.0, p.1) ≡ ((c ∷ l) ∷ p.0, p.1)
cons_line-append c l p = refl

pub split_lines-line :
    (l s : Bytes)
    → Lacks 10 l
    → split_lines (end_line l ++ s) ≡ (end_line l ∷ (split_lines s).0, (split_lines s).1)
unfolding split_lines
split_lines-line [] s h = refl
split_lines-line (c ∷ l) s h = rw h.0 (rw (split_lines-line l s h.1))

pub split_lines-unlines :
    (ls : List Bytes) → All (Lacks 10) ls → split_lines (unlines ls) ≡ (map end_line ls, [])
split_lines-unlines [] h = unfold split_lines in refl
split_lines-unlines (l ∷ ls) h =
    split_lines-line l (unlines ls) h.0 ∙ rw (split_lines-unlines ls h.1)

parse_line_trimmed :
    (st : SseEvent) (l t : Bytes) → trim_space l ≡ t → parse_line st l ≡ parse_trimmed st t
unfolding parse_line
parse_line_trimmed st l t h = rw h

module _ (st : SseEvent) (b : Bool) (s : Bytes) (f : IsField s) where
  pub parse_line_event :
      parse_line st (end_line (codes "event:" ++ pad b s)) ≡ (record st { event = s }, none)
  unfolding parse_trimmed is_tidy
  parse_line_event =
      parse_line_trimmed st _ (codes "event:" ++ kept b s)
        (trim_space-field b'e' (codes "vent:") b s refl f.tidy)
      ∙ rw (trim_space-kept b s f.tidy)

  pub parse_line_data :
      parse_line st (end_line (codes "data:" ++ pad b s))
      ≡ (record st { payload = add_data st.payload s }, none)
  unfolding parse_trimmed is_tidy
  parse_line_data =
      parse_line_trimmed st _ (codes "data:" ++ kept b s)
        (trim_space-field b'd' (codes "ata:") b s refl f.tidy)
      ∙ rw (trim_space-kept b s f.tidy)

  pub parse_line_id :
      parse_line st (end_line (codes "id:" ++ pad b s)) ≡ (record st { id = s }, none)
  unfolding parse_trimmed is_tidy
  parse_line_id =
      parse_line_trimmed st _ (codes "id:" ++ kept b s)
        (trim_space-field b'i' (codes "d:") b s refl f.tidy)
      ∙ rw (trim_space-kept b s f.tidy)
