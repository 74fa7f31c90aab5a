-- ===== src/Sse.antt =====
-- proxy/sse_reader.go: the reader of Server-Sent Events that the Streamable HTTP transport uses,
-- and the streams of bytes that it reads from.
pub mod Wire
pub mod RoundTrip
pub mod Cancel
use mcp_remote_go.Base.{
  ℕ, suc, Bool, true, false, not, ◌||◌, List, [], ◌∷◌, ◌++◌, Option, none, some, ◌==◌,
  if◌then◌else◌, Bytes, codes, drop, is_nil,
}
use mcp_remote_go.Text.{has_prefix, trim_space}

-- What `ReadBytes` and `ctx.Err` report.
pub data Failure : Type 0 where
  eof canceled deadline_exceeded : Failure
  broken : Bytes → Failure

-- `errors.Is(err, io.EOF) || errors.Is(err, context.Canceled)`.
abbrev pub is_clean_end : Failure → Bool
is_clean_end eof = true
is_clean_end canceled = true
is_clean_end _ = false

-- What a `bufio.Reader` will hand out: the complete lines, each with its '\n', then the bytes
-- behind the last one together with the failure that ends the stream.
pub record Stream : Type 0 where
  pub lines : List Bytes
  pub rest : Bytes
  pub failure : Failure

abbrev pub cons_line : ℕ → List Bytes × Bytes → List Bytes × Bytes
cons_line c ([], rest) = ([], c ∷ rest)
cons_line c (l ∷ ls, rest) = ((c ∷ l) ∷ ls, rest)

-- The calls of `ReadBytes('\n')` on a text, one after the other.
unfoldable pub split_lines : Bytes → List Bytes × Bytes
split_lines [] = ([], [])
split_lines (c ∷ s) =
    if c == 10
    then ((10 ∷ []) ∷ (split_lines s).0, (split_lines s).1)
    else cons_line c (split_lines s)

abbrev pub stream_of : Bytes → Failure → Stream
stream_of body failure = record {
  lines = (split_lines body).0;
  rest = (split_lines body).1;
  failure = failure;
}

-- `SSEEvent`; the field `Data` is `payload`. The three local variables of `ReadSSEEvents` have the
-- same names and types, and are a value of this type too.
pub record SseEvent : Type 0 where
  pub event : Bytes
  pub payload : Bytes
  pub id : Bytes

abbrev pub no_event : SseEvent
no_event = record { event = []; payload = []; id = [] }

-- The buffer after a `data:` field.
unfoldable pub add_data : Bytes → Bytes → Bytes
add_data buffer line = if is_nil buffer then line else buffer ++ 10 ∷ line

-- The rest of the closure `parseLine`, on the trimmed line. The second part is the call of
-- `handler`, if there is one.
unfoldable pub parse_trimmed : SseEvent → Bytes → SseEvent × Option SseEvent
unfolding add_data has_prefix
parse_trimmed st [] = if is_nil st.payload then (st, none) else (no_event, some st)
parse_trimmed st (c ∷ l) =
    if has_prefix (codes ":") (c ∷ l)
    then (st, none)
    else if has_prefix (codes "event:") (c ∷ l)
    then (record st { event = trim_space (drop 6 (c ∷ l)) }, none)
    else if has_prefix (codes "data:") (c ∷ l)
    then (record st { payload = add_data st.payload (trim_space (drop 5 (c ∷ l))) }, none)
    else if has_prefix (codes "id:") (c ∷ l)
    then (record st { id = trim_space (drop 3 (c ∷ l)) }, none)
    else (st, none)

-- The closure `parseLine`.
unfoldable pub parse_line : SseEvent → Bytes → SseEvent × Option SseEvent
parse_line st line = parse_trimmed st (trim_space line)

-- A call of the handler, before those that follow.
abbrev pub emit : Option SseEvent → List SseEvent → List SseEvent
emit none es = es
emit (some e) es = e ∷ es

-- The round in which `ReadBytes` fails: the bytes in front of the failure, the pending event, and
-- the result.
unfoldable pub last_round : SseEvent → Bytes → Failure → List SseEvent × Option Failure
last_round st rest failure =
    let (st', call) = if is_nil rest then (st, none) else parse_line st rest in
    (
      emit call (if is_nil st'.payload then [] else st' ∷ []),
      if is_clean_end failure then none else some failure,
    )

-- The loop. `ctx n` is `ctx.Err()` at the head of round `n`.
unfoldable pub read_loop :
    (ℕ → Option Failure)
    → ℕ
    → SseEvent
    → List Bytes
    → Bytes
    → Failure
    → List SseEvent × Option Failure
read_loop ctx n st [] rest failure = elim (ctx n) [
  | some e ↦ ([], some e)
  | none ↦ last_round st rest failure
]
read_loop ctx n st (line ∷ lines) rest failure = elim (ctx n) [
  | some e ↦ ([], some e)
  | none ↦
      let (st', call) = parse_line st line in
      let (calls, result) = read_loop ctx (suc n) st' lines rest failure in
      (emit call calls, result)
]

-- `ReadSSEEvents`: the calls of the handler in order, and the error returned.
unfoldable pub read_sse_events : (ℕ → Option Failure) → Stream → List SseEvent × Option Failure
unfolding read_loop
read_sse_events ctx s = read_loop ctx 0 no_event s.lines s.rest s.failure
