-- ===== src/Sse/RoundTrip.antt =====
-- proxy/sse_reader.go: `ReadSSEEvents` on the events that a server writes.
use mathlib.Core.List.{map-append}
use mcp_remote_go.Base.{
  Bool, true, Bool-cases, inl, inr, ap, sym, ℕ, suc, ◌≡◌, refl, ◌∙◌, false, List, [], ◌∷◌, ◌++◌,
  append_assoc, Option, none, some, arith, if◌then◌else◌, Bytes, codes, is_nil, map, All,
}
use mcp_remote_go.Text.Laws.{Lacks, Lacks-append}
use mcp_remote_go.Text.Trim.{trim_space-line, is_tidy, pad}
use mcp_remote_go.Sse.{
  Failure, is_clean_end, SseEvent, no_event, add_data, parse_trimmed, parse_line, emit, last_round,
  read_loop, read_sse_events, stream_of,
}
use mcp_remote_go.Sse.Wire.{
  IsField, Message, IsMessage, wire_lines, line_if_any, data_line, data_lines, join_lines, event_of,
  end_line, unlines, split_lines-unlines, parse_line_event, parse_line_data, parse_line_id,
}

abbrev pub never : ℕ → Option Failure
never n = none

-- The loop under a context that is never done.
abbrev pub run : SseEvent → List Bytes → Bytes → Failure → List SseEvent × Option Failure
run st [] rest f = last_round st rest f
run st (l ∷ ls) rest f = (
  emit (parse_line st l).1 (run (parse_line st l).0 ls rest f).0,
  (run (parse_line st l).0 ls rest f).1,
)

pub read_loop-run :
    (n : ℕ) (st : SseEvent) (ls : List Bytes) (rest : Bytes) (f : Failure)
    → read_loop never n st ls rest f ≡ run st ls rest f
unfolding read_loop
read_loop-run n st [] rest f = refl
read_loop-run n st (l ∷ ls) rest f = rw (read_loop-run (suc n) (parse_line st l).0 ls rest f)

pub nil_of : (s : Bytes) → is_nil s ≡ true → s ≡ []
nil_of [] h = refl
nil_of (c ∷ s) h = absurd (ground arith)

add_data-more : (b l : Bytes) → is_nil b ≡ false → add_data b l ≡ b ++ 10 ∷ l
unfolding add_data
add_data-more b l h = rw h

is_nil-append : (b l : Bytes) → is_nil (b ++ 10 ∷ l) ≡ false
is_nil-append [] l = refl
is_nil-append (a ∷ b) l = refl

run_data :
    (b : Bool) (st : SseEvent) (more ls : List Bytes) (rest : Bytes) (f : Failure)
    → is_nil st.payload ≡ false
    → All IsField more
    → run st (map end_line (map (data_line b) more) ++ ls) rest f
      ≡ run (record st { payload = join_lines st.payload more }) ls rest f
run_data b st [] ls rest f h fields = refl
run_data b st (l ∷ more) ls rest f h fields = rw (parse_line_data st b l fields.0) (
    rw (add_data-more st.payload l h) (
      run_data b (record st { payload = st.payload ++ 10 ∷ l }) more ls rest f
        (is_nil-append st.payload l) fields.1))

join_lines-ne-nil :
    (s : Bytes) (ls : List Bytes) → is_nil s ≡ false → is_nil (join_lines s ls) ≡ false
join_lines-ne-nil s [] h = h
join_lines-ne-nil s (l ∷ ls) h = join_lines-ne-nil (s ++ 10 ∷ l) ls (is_nil-append s l)

parse_line_blank :
    (st : SseEvent) → is_nil st.payload ≡ false → parse_line st (end_line []) ≡ (no_event, some st)
unfolding parse_line parse_trimmed is_tidy
parse_line_blank st h = rw (trim_space-line [] refl) (rw h)

-- The lines of an event, one part behind the other.
module _ (m : Message) (ls : List Bytes) (rest : Bytes) (f : Failure) (h : IsMessage m) where
  run_event :
      run no_event (map end_line (line_if_any m.spaced (codes "event:") m.event) ++ ls) rest f
      ≡ run (record no_event { event = m.event }) ls rest f
  run_event = elim (Bool-cases (is_nil m.event)) [
    | inl empty ↦
        rw empty
          (ap (λ e. run (record no_event { event = e }) ls rest f) (sym (nil_of m.event empty)))
    | inr full ↦ rw full (rw (parse_line_event no_event m.spaced m.event h.event_field))
  ]

  run_id :
      run
        (record no_event { event = m.event })
        (map end_line (line_if_any m.spaced (codes "id:") m.id) ++ ls)
        rest
        f
      ≡ run (record no_event { event = m.event; id = m.id }) ls rest f
  run_id = elim (Bool-cases (is_nil m.id)) [
    | inl empty ↦ rw empty (
        ap (λ i. run (record no_event { event = m.event; id = i }) ls rest f)
          (sym (nil_of m.id empty)))
    | inr full ↦
        rw full (rw (parse_line_id (record no_event { event = m.event }) m.spaced m.id h.id_field))
  ]

  run_body :
      run
        (record no_event { event = m.event; id = m.id })
        (map end_line (data_lines m) ++ ls)
        rest
        f
      ≡ (event_of m ∷ (run no_event ls rest f).0, (run no_event ls rest f).1)
  unfolding add_data
  run_body =
      rw
        (parse_line_data (record no_event { event = m.event; id = m.id }) m.spaced m.first
          h.first_field)
        (rw
          (
            map-append end_line (map (data_line m.spaced) m.more) ([] ∷ []),
            append_assoc (map end_line (map (data_line m.spaced) m.more)) (end_line [] ∷ []) ls,
          )
          (run_data m.spaced (record { event = m.event; payload = m.first; id = m.id }) m.more
              (end_line [] ∷ ls) rest f h.first_ne_nil h.more_fields
            ∙ rw (parse_line_blank (event_of m) (join_lines-ne-nil m.first m.more h.first_ne_nil))))

-- The ends of the lines of an event, in three parts.
pub wire_lines-parts :
    (m : Message) (ls : List Bytes)
    → map end_line (wire_lines m) ++ ls
      ≡ map end_line (line_if_any m.spaced (codes "event:") m.event)
        ++ (map end_line (line_if_any m.spaced (codes "id:") m.id)
            ++ (map end_line (data_lines m) ++ ls))
unfolding wire_lines
wire_lines-parts m ls =
    let e = line_if_any m.spaced (codes "event:") m.event in
    let i = line_if_any m.spaced (codes "id:") m.id in
    ap (λ x. x ++ ls) (map-append end_line e (i ++ data_lines m))
    ∙ append_assoc (map end_line e) (map end_line (i ++ data_lines m)) ls
    ∙ ap (λ x. map end_line e ++ x)
        (ap (λ x. x ++ ls) (map-append end_line i (data_lines m))
          ∙ append_assoc (map end_line i) (map end_line (data_lines m)) ls)

run_message :
    (m : Message) (ls : List Bytes) (rest : Bytes) (f : Failure)
    → IsMessage m
    → run no_event (map end_line (wire_lines m) ++ ls) rest f
      ≡ (event_of m ∷ (run no_event ls rest f).0, (run no_event ls rest f).1)
run_message m ls rest f h =
    let body = map end_line (data_lines m) ++ ls in
    let named = map end_line (line_if_any m.spaced (codes "id:") m.id) ++ body in
    ap (λ x. run no_event x rest f) (wire_lines-parts m ls)
    ∙ run_event m named rest f h
    ∙ run_id m body rest f h
    ∙ run_body m ls rest f h

abbrev pub wire : List Message → List Bytes
wire [] = []
wire (m ∷ ms) = wire_lines m ++ wire ms

run-wire :
    (ms : List Message) (f : Failure)
    → All IsMessage ms
    → run no_event (map end_line (wire ms)) [] f
      ≡ (map event_of ms, if is_clean_end f then none else some f)
unfolding last_round
run-wire [] f h = refl
run-wire (m ∷ ms) f h =
    rw (map-append end_line (wire_lines m) (wire ms))
      (run_message m (map end_line (wire ms)) [] f h.0 ∙ rw (run-wire ms f h.1))

Lacks-pad : (b : Bool) (s : Bytes) → Lacks 10 s → Lacks 10 (pad b s)
Lacks-pad true s h = (refl, h)
Lacks-pad false s h = h

Lacks-data : (b : Bool) (ls : List Bytes) → All IsField ls → All (Lacks 10) (map (data_line b) ls)
Lacks-data b [] h = tt
Lacks-data b (l ∷ ls) h = (
  Lacks-append 10 (codes "data:") (pad b l) (ground arith) (Lacks-pad b l h.0.one_line),
  Lacks-data b ls h.1,
)

Lacks-line_if_any :
    (b : Bool) (name s : Bytes) → Lacks 10 name → IsField s → All (Lacks 10) (line_if_any b name s)
Lacks-line_if_any b name s h f = elim (Bool-cases (is_nil s)) [
  | inl empty ↦ rw empty tt
  | inr full ↦ rw full (Lacks-append 10 name (pad b s) h (Lacks-pad b s f.one_line), tt)
]

All-append {ℓ κ} :
    {A : Type ℓ} (P : A → Type κ) (xs ys : List A) → All P xs → All P ys → All P (xs ++ ys)
All-append P [] ys hx hy = hy
All-append P (x ∷ xs) ys hx hy = (hx.0, All-append P xs ys hx.1 hy)

Lacks-wire_lines : (m : Message) → IsMessage m → All (Lacks 10) (wire_lines m)
unfolding wire_lines
Lacks-wire_lines m h =
    All-append (Lacks 10) (line_if_any m.spaced (codes "event:") m.event)
      (line_if_any m.spaced (codes "id:") m.id ++ data_lines m)
      (Lacks-line_if_any m.spaced (codes "event:") m.event (ground arith) h.event_field)
      (All-append (Lacks 10) (line_if_any m.spaced (codes "id:") m.id) (data_lines m)
        (Lacks-line_if_any m.spaced (codes "id:") m.id (ground arith) h.id_field)
        (All-append (Lacks 10) (map (data_line m.spaced) (m.first ∷ m.more)) ([] ∷ [])
          (Lacks-data m.spaced (m.first ∷ m.more) (h.first_field, h.more_fields)) (tt, tt)))

pub Lacks-wire : (ms : List Message) → All IsMessage ms → All (Lacks 10) (wire ms)
Lacks-wire [] h = tt
Lacks-wire (m ∷ ms) h =
    All-append (Lacks 10) (wire_lines m) (wire ms) (Lacks-wire_lines m h.0) (Lacks-wire ms h.1)

-- Under a context that is not done, the handler is called with exactly the events that a server
-- writes one behind the other, in this order, the lines of the data joined by '\n'. A server writes
-- a blank behind its colons or not; the lines of the type and of the id stand in front of the data,
-- and are left out where these are empty. Each text of an event is one line with ASCII ends that are
-- no white space, or empty, and the first line of the data is not empty. The end of the stream, or
-- its cancellation, is no error; any other failure is returned.
pub read_sse_events-wire :
    (ms : List Message) (f : Failure)
    → All IsMessage ms
    → read_sse_events never (stream_of (unlines (wire ms)) f)
      ≡ (map event_of ms, if is_clean_end f then none else some f)
unfolding read_sse_events
read_sse_events-wire ms f h =
    rw (split_lines-unlines (wire ms) (Lacks-wire ms h))
      (read_loop-run 0 no_event (map end_line (wire ms)) [] f ∙ run-wire ms f h)
