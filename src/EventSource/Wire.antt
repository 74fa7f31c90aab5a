-- ===== src/EventSource/Wire.antt =====
-- proxy/eventsource.go: `readEvents` on the events that a server writes.
use mathlib.Core.List.{map-append}
use mcp_remote_go.Base.{
  Bool-cases, inl, inr, ap, sym, ℕ, suc, ◌≡◌, refl, ◌∙◌, Bool, false, List, [], ◌∷◌, ◌++◌,
  append_assoc, none, some, if◌then◌else◌, Bytes, codes, is_nil, map, All,
}
use mcp_remote_go.Text.Trim.{is_tidy, trim_space-line, pad, kept, trim_space-field, trim_space-kept}
use mcp_remote_go.Text.{trim_space}
use mcp_remote_go.Sse.{Failure, is_clean_end, stream_of}
use mcp_remote_go.Sse.Wire.{
  IsField, Message, IsMessage, wire_lines, line_if_any, data_line, data_lines, end_line, unlines,
  split_lines-unlines,
}
use mcp_remote_go.Sse.RoundTrip.{wire, Lacks-wire, wire_lines-parts, nil_of}
use mcp_remote_go.EventSource.{
  EventSource, body_closed, Reading, read_trimmed, read_line, emit, Outcome, read_loop, read_events,
}

abbrev pub not_done : ℕ → Bool
not_done n = false

-- The lines of the data of an event, with nothing between them.
abbrev pub concat_lines : Bytes → List Bytes → Bytes
concat_lines s [] = s
concat_lines s (l ∷ ls) = concat_lines (s ++ l) ls

abbrev pub message_of : Message → Bytes × Bytes
message_of m = (m.event, concat_lines m.first m.more)

-- An event without an id leaves the one from before.
abbrev pub kept_id : Bytes → Message → Bytes
kept_id id m = if is_nil m.id then id else m.id

-- The id of the last event that has one, or the one from before.
abbrev pub last_message_id : Bytes → List Message → Bytes
last_message_id id [] = id
last_message_id id (m ∷ ms) = last_message_id (kept_id id m) ms

-- The loop under a context that is not done.
abbrev run : Reading → List Bytes → Failure → Outcome
run st [] f = record {
  messages = [];
  failure = if is_clean_end f then none else some f;
  last_id = st.last_id;
}
run st (l ∷ ls) f = record {
  messages = emit (read_line st l).1 (run (read_line st l).0 ls f).messages;
  failure = (run (read_line st l).0 ls f).failure;
  last_id = (run (read_line st l).0 ls f).last_id;
}

read_loop-run :
    (n : ℕ) (st : Reading) (ls : List Bytes) (f : Failure)
    → read_loop not_done n st ls f ≡ run st ls f
unfolding read_loop
read_loop-run n st [] f = refl
read_loop-run n st (l ∷ ls) f = rw (read_loop-run (suc n) (read_line st l).0 ls f)

read_line_trimmed :
    (st : Reading) (l t : Bytes) → trim_space l ≡ t → read_line st l ≡ read_trimmed st t
unfolding read_line
read_line_trimmed st l t h = rw h

module _ (st : Reading) (b : Bool) (s : Bytes) (f : IsField s) where
  read_line_event :
      read_line st (end_line (codes "event:" ++ pad b s)) ≡ (record st { event = s }, none)
  unfolding read_trimmed is_tidy
  read_line_event =
      read_line_trimmed st _ (codes "event:" ++ kept b s)
        (trim_space-field b'e' (codes "vent:") b s refl f.tidy)
      ∙ rw (trim_space-kept b s f.tidy)

  read_line_data :
      read_line st (end_line (codes "data:" ++ pad b s))
      ≡ (record st { payload = st.payload ++ s }, none)
  unfolding read_trimmed is_tidy
  read_line_data =
      read_line_trimmed st _ (codes "data:" ++ kept b s)
        (trim_space-field b'd' (codes "ata:") b s refl f.tidy)
      ∙ rw (trim_space-kept b s f.tidy)

  read_line_id :
      read_line st (end_line (codes "id:" ++ pad b s)) ≡ (record st { last_id = s }, none)
  unfolding read_trimmed is_tidy
  read_line_id =
      read_line_trimmed st _ (codes "id:" ++ kept b s)
        (trim_space-field b'i' (codes "d:") b s refl f.tidy)
      ∙ rw (trim_space-kept b s f.tidy)

read_line_blank :
    (st : Reading)
    → is_nil st.payload ≡ false
    → read_line st (end_line [])
      ≡ (record st { event = []; payload = [] }, some (st.event, st.payload))
unfolding read_line read_trimmed is_tidy
read_line_blank st h = rw (trim_space-line [] refl) (rw h)

is_nil-append : (s t : Bytes) → is_nil s ≡ false → is_nil (s ++ t) ≡ false
is_nil-append [] t h = cc
is_nil-append (c ∷ s) t h = refl

concat_lines-ne-nil :
    (s : Bytes) (ls : List Bytes) → is_nil s ≡ false → is_nil (concat_lines s ls) ≡ false
concat_lines-ne-nil s [] h = h
concat_lines-ne-nil s (l ∷ ls) h = concat_lines-ne-nil (s ++ l) ls (is_nil-append s l h)

run_data :
    (b : Bool) (st : Reading) (more ls : List Bytes) (f : Failure)
    → All IsField more
    → run st (map end_line (map (data_line b) more) ++ ls) f
      ≡ run (record st { payload = concat_lines st.payload more }) ls f
run_data b st [] ls f fields = refl
run_data b st (l ∷ more) ls f fields =
    rw (read_line_data st b l fields.0)
      (run_data b (record st { payload = st.payload ++ l }) more ls f fields.1)

-- The reader between two events.
abbrev between : Bytes → Reading
between id = record { event = []; payload = []; last_id = id }

-- The lines of an event, one part behind the other.
module _ (id : Bytes) (m : Message) (ls : List Bytes) (f : Failure) (h : IsMessage m) where
  run_event :
      run (between id) (map end_line (line_if_any m.spaced (codes "event:") m.event) ++ ls) f
      ≡ run (record (between id) { event = m.event }) ls f
  run_event = elim (Bool-cases (is_nil m.event)) [
    | inl empty ↦
        rw empty
          (ap (λ e. run (record (between id) { event = e }) ls f) (sym (nil_of m.event empty)))
    | inr full ↦ rw full (rw (read_line_event (between id) m.spaced m.event h.event_field))
  ]

  run_id :
      run
        (record (between id) { event = m.event })
        (map end_line (line_if_any m.spaced (codes "id:") m.id) ++ ls)
        f
      ≡ run (record (between (kept_id id m)) { event = m.event }) ls f
  run_id = elim (Bool-cases (is_nil m.id)) [
    | inl empty ↦ rw empty refl
    | inr full ↦
        rw full
          (rw (read_line_id (record (between id) { event = m.event }) m.spaced m.id h.id_field))
  ]

  run_body :
      run (record (between id) { event = m.event }) (map end_line (data_lines m) ++ ls) f
      ≡ record (run (between id) ls f) {
        messages = message_of m ∷ (run (between id) ls f).messages;
      }
  run_body =
      rw (read_line_data (record (between id) { event = m.event }) m.spaced m.first h.first_field) (
        rw
          (
            map-append end_line (map (data_line m.spaced) m.more) ([] ∷ []),
            append_assoc (map end_line (map (data_line m.spaced) m.more)) (end_line [] ∷ []) ls,
          )
          (run_data m.spaced (record { event = m.event; payload = m.first; last_id = id }) m.more
              (end_line [] ∷ ls) f h.more_fields
            ∙ rw (
                read_line_blank
                  (record { event = m.event; payload = concat_lines m.first m.more; last_id = id })
                  (concat_lines-ne-nil m.first m.more h.first_ne_nil))))

run_message :
    (id : Bytes) (m : Message) (ls : List Bytes) (f : Failure)
    → IsMessage m
    → run (between id) (map end_line (wire_lines m) ++ ls) f
      ≡ record (run (between (kept_id id m)) ls f) {
        messages = message_of m ∷ (run (between (kept_id id m)) ls f).messages;
      }
run_message id m ls f h =
    let body = map end_line (data_lines m) ++ ls in
    let named = map end_line (line_if_any m.spaced (codes "id:") m.id) ++ body in
    ap (λ x. run (between id) x f) (wire_lines-parts m ls)
    ∙ run_event id m named f h
    ∙ run_id id m body f h
    ∙ run_body (kept_id id m) m ls f h

run-wire :
    (id : Bytes) (ms : List Message) (f : Failure)
    → All IsMessage ms
    → run (between id) (map end_line (wire ms)) f ≡ record {
      messages = map message_of ms;
      failure = if is_clean_end f then none else some f;
      last_id = last_message_id id ms;
    }
run-wire id [] f h = refl
run-wire id (m ∷ ms) f h =
    rw (map-append end_line (wire_lines m) (wire ms))
      (run_message id m (map end_line (wire ms)) f h.0 ∙ rw (run-wire (kept_id id m) ms f h.1))

-- Of the events that a server writes, and under a context that is not done, `OnMessage` gets the type
-- and the lines of the data with nothing between them, in order; `OnError` is called only with a
-- failure that is neither the end of the stream nor its cancellation; the id of the last event that
-- has one is kept, the source is no longer connected, and the body of its response, if it has one,
-- is closed. How a server writes events is as for the reader of the Streamable HTTP transport, with
-- or without blanks behind the colons, and without the lines of an empty type or id.
pub read_events-wire :
    (es : EventSource) (ms : List Message) (f : Failure)
    → All IsMessage ms
    → read_events not_done es (stream_of (unlines (wire ms)) f) ≡ (
      record es {
        connected = false;
        closed = body_closed es;
        last_id = last_message_id es.last_id ms;
      },
      record {
        messages = map message_of ms;
        failure = if is_clean_end f then none else some f;
        last_id = last_message_id es.last_id ms;
      },
    )
unfolding read_events
read_events-wire es ms f h = rw (split_lines-unlines (wire ms) (Lacks-wire ms h)) (
    rw (read_loop-run 0 (between es.last_id) (map end_line (wire ms)) f)
      (rw (run-wire es.last_id ms f h)))
