-- ===== src/Proxy/Relay/Stdin.antt =====
-- proxy/proxy.go: `processStdioInput` on what a client writes.
use mathlib.Core.List.{map-append}
use mcp_remote_go.Base.{
  Bool, if◌then◌else◌, Bool-cases, inl, inr, ℕ, suc, ◌≡◌, refl, ap, ◌∙◌, false, ◌&&◌, List, [], ◌∷◌,
  ◌++◌, append_assoc, some, Bytes, is_nil, map, All,
}
use mcp_remote_go.Text.Laws.{Lacks}
use mcp_remote_go.Sse.{split_lines, cons_line}
use mcp_remote_go.Sse.Wire.{end_line, unlines, split_lines-line}
use mcp_remote_go.Http.{Request}
use mcp_remote_go.Streamable as Streamable
use mcp_remote_go.LegacySse as LegacySse
use mcp_remote_go.Proxy.Relay.{
  World, Transport, streamable_transport, sse_transport, line, ended, StdioRound, StdioEnd,
  canceled, input_closed, process_stdio_input,
}

-- The law of a transport that is ready: `Send` makes one request, with the message for its body,
-- and leaves the transport ready.
pub record IsTransport {S : Type 0} (ops : Transport S) (IsReady : S → Type 0) : Type 0 where
  pub one_request :
      (w : World) (s : S) (message : Bytes)
      → ((r : Request) → w.refuses r ≡ false)
      → IsReady s
      → map (λ (r : Request). r.body) (ops.send w s message).requests ≡ message ∷ []
  pub stays_ready :
      (w : World) (s : S) (message : Bytes)
      → ((r : Request) → w.refuses r ≡ false)
      → IsReady s
      → IsReady (ops.send w s message).state

-- A Streamable HTTP transport is always ready.
abbrev pub Always : Streamable.Transport → Type 0
Always t = Unit

-- A legacy transport is ready once it has connected or knows its endpoint.
abbrev pub IsConnected : LegacySse.SseTransport → Type 0
IsConnected t = (LegacySse.is_none t.event_source && is_nil t.command_endpoint) ≡ false

pub streamable_transport-IsTransport :
    (to_lower : Bytes → Bytes) → IsTransport (streamable_transport to_lower) Always
unfolding streamable_transport Streamable.send_request
streamable_transport-IsTransport to_lower = record {
  one_request = λ w s m built h. rw (built (Streamable.send_request s w.token m)) refl;
  stays_ready = λ w s m built h. tt;
}

pub sse_transport-IsTransport :
    (to_lower : Bytes → Bytes) (lib : LegacySse.UrlLibrary)
    → IsTransport (sse_transport to_lower lib) IsConnected
unfolding sse_transport LegacySse.send LegacySse.send_request
sse_transport-IsTransport to_lower lib = record {
  one_request = λ w s m built h. rw (built (LegacySse.send_request lib s w.token m)) (rw h refl);
  stays_ready = λ w s m built h. rw (built (LegacySse.send_request lib s w.token m)) h;
}

-- The rounds in which a text is read and the input then ends; round `n` meets `worlds n`, and
-- `done n` tells whether the context is done at its head.
abbrev pub rounds_from : (ℕ → World) → (ℕ → Bool) → ℕ → List Bytes → Bytes → List StdioRound
rounds_from worlds done n [] partial =
    record { world = worlds n; is_done = done n; reading = ended partial } ∷ []
rounds_from worlds done n (l ∷ ls) partial =
    record { world = worlds n; is_done = done n; reading = line l }
    ∷ rounds_from worlds done (suc n) ls partial

abbrev pub rounds_of : (ℕ → World) → (ℕ → Bool) → Bytes → List StdioRound
rounds_of worlds done input = rounds_from worlds done 0 (split_lines input).0 (split_lines input).1

-- The lines in front of the first round from `n` on whose context is done.
abbrev pub until_done : (ℕ → Bool) → ℕ → List Bytes → List Bytes
until_done done n [] = []
until_done done n (l ∷ ls) = if done n then [] else l ∷ until_done done (suc n) ls

-- The end of a loop over so many lines.
abbrev pub end_after : (ℕ → Bool) → ℕ → List Bytes → StdioEnd
end_after done n [] = if done n then canceled else input_closed
end_after done n (l ∷ ls) = if done n then canceled else end_after done (suc n) ls

split_lines_rest : (s : Bytes) → Lacks 10 s → split_lines s ≡ ([], s)
unfolding split_lines
split_lines_rest [] h = refl
split_lines_rest (c ∷ s) h = rw h.0 (ap (cons_line c) (split_lines_rest s h.1))

split_lines-partial :
    (ls : List Bytes) (s : Bytes)
    → All (Lacks 10) ls
    → Lacks 10 s
    → split_lines (unlines ls ++ s) ≡ (map end_line ls, s)
split_lines-partial [] s h hs = split_lines_rest s hs
split_lines-partial (l ∷ ls) s h hs =
    ap split_lines (append_assoc (end_line l) (unlines ls) s)
    ∙ split_lines-line l (unlines ls ++ s) h.0
    ∙ ap (λ p. (end_line l ∷ p.0, p.1)) (split_lines-partial ls s h.1 hs)

module _ {S : Type 0} (ops : Transport S) (IsReady : S → Type 0)
    (law : IsTransport ops IsReady) where
  map-append_one :
      (rs rest : List Request) (m : Bytes)
      → map (λ (r : Request). r.body) rs ≡ m ∷ []
      → map (λ (r : Request). r.body) (rs ++ rest) ≡ m ∷ map (λ (r : Request). r.body) rest
  map-append_one rs rest m h =
      map-append (λ (r : Request). r.body) rs rest
      ∙ ap (λ bs. bs ++ map (λ (r : Request). r.body) rest) h

  module _ (worlds : ℕ → World) (done : ℕ → Bool)
      (built : (n : ℕ) (r : Request) → (worlds n).refuses r ≡ false) where
    rounds_from-sent :
        (n : ℕ) (ls : List Bytes) (partial : Bytes) (s : S)
        → IsReady s
        → (map
              (λ (r : Request). r.body)
              (process_stdio_input ops (rounds_from worlds done n ls partial) (some s)).sent
            ≡ until_done done n ls)
          × ((process_stdio_input ops (rounds_from worlds done n ls partial) (some s)).end
              ≡ end_after done n ls)
    unfolding process_stdio_input
    rounds_from-sent n [] partial s h = elim (Bool-cases (done n)) [
      | inl over ↦ rw over (refl, refl)
      | inr goes_on ↦ rw goes_on (refl, refl)
    ]
    rounds_from-sent n (l ∷ ls) partial s h = elim (Bool-cases (done n)) [
      | inl over ↦ rw over (refl, refl)
      | inr goes_on ↦
          let (bodies, closed) =
            rounds_from-sent (suc n) ls partial (ops.send (worlds n) s l).state
              (law.stays_ready (worlds n) s l (built n) h) in
          rw goes_on (
            map-append_one (ops.send (worlds n) s l).requests _ l
                  (law.one_request (worlds n) s l (built n) h)
                ∙ ap (λ bs. l ∷ bs) bodies,
            closed,
          )
    ]

    -- Every line that a client writes is sent as the body of one request, with its '\n', in order, up
    -- to the first round at whose head the context is done, and nothing else is, whatever the server
    -- answers and also where a `Send` fails; what stands behind the last '\n' is not sent. The loop
    -- ends because of the context, if there is such a round, and else at the end of the input. The
    -- transport is ready, its `Send` makes one request and leaves it ready, and
    -- `http.NewRequestWithContext` does not fail.
    pub process_stdio_input-unlines :
        (ls : List Bytes) (partial : Bytes) (s : S)
        → IsReady s
        → All (Lacks 10) ls
        → Lacks 10 partial
        → (map
              (λ (r : Request). r.body)
              (process_stdio_input ops
                (rounds_of worlds done (unlines ls ++ partial))
                (some s)).sent
            ≡ until_done done 0 (map end_line ls))
          × ((process_stdio_input ops (rounds_of worlds done (unlines ls ++ partial)) (some s)).end
              ≡ end_after done 0 (map end_line ls))
    process_stdio_input-unlines ls partial s ready lines rest =
        rw (split_lines-partial ls partial lines rest)
          (rounds_from-sent 0 (map end_line ls) partial s ready)
