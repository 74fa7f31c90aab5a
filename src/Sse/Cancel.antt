-- ===== src/Sse/Cancel.antt =====
-- proxy/sse_reader.go: `ReadSSEEvents` under a context that may be done at any round.
use mcp_remote_go.Base.{
  ℕ, suc, ◌≡◌, refl, sym, ap, ◌∙◌, append-nil, ◌⊎◌, inl, inr, List, [], ◌∷◌, ◌++◌, Option, none,
  some, Bytes, Option-cases,
}
use mcp_remote_go.Sse.{
  Failure, SseEvent, no_event, parse_line, emit, last_round, read_loop, read_sse_events, Stream,
}
use mcp_remote_go.Sse.RoundTrip.{never, run, read_loop-run}

-- The first of two runs called the handler with a prefix of what the second called it with, and
-- ended as the second did or returned what the context reported.
abbrev pub IsCut :
    (ℕ → Option Failure) → List SseEvent × Option Failure → List SseEvent × Option Failure → Type 0
IsCut ctx cut whole =
    (more : List SseEvent) × (whole.0 ≡ cut.0 ++ more)
    × ((cut ≡ whole) ⊎ ((n : ℕ) × (e : Failure) × (ctx n ≡ some e) × (cut.1 ≡ some e)))

emit-append : (c : Option SseEvent) (xs ys : List SseEvent) → emit c (xs ++ ys) ≡ emit c xs ++ ys
emit-append none xs ys = refl
emit-append (some e) xs ys = refl

module _ (ctx : ℕ → Option Failure) where
  IsCut-refl : (r : List SseEvent × Option Failure) → IsCut ctx r r
  IsCut-refl r = ([], sym (append-nil r.0), inl refl)

  IsCut-stop :
      (n : ℕ) (e : Failure) (whole : List SseEvent × Option Failure)
      → ctx n ≡ some e
      → IsCut ctx ([], some e) whole
  IsCut-stop n e whole h = (whole.0, refl, inr (n, e, h, refl))

  IsCut-emit :
      (c : Option SseEvent) (cut whole : List SseEvent × Option Failure)
      → IsCut ctx cut whole
      → IsCut ctx (emit c cut.0, cut.1) (emit c whole.0, whole.1)
  IsCut-emit c cut whole (more, split, inl same) =
      (more, ap (emit c) split ∙ emit-append c cut.0 more, inl (rw same))
  IsCut-emit c cut whole (more, split, inr stop) =
      (more, ap (emit c) split ∙ emit-append c cut.0 more, inr stop)

module _ (ctx : ℕ → Option Failure) (rest : Bytes) (f : Failure) where
  read_loop_stop :
      (n : ℕ) (st : SseEvent) (ls : List Bytes) (e : Failure)
      → ctx n ≡ some e
      → read_loop ctx n st ls rest f ≡ ([], some e)
  unfolding read_loop
  read_loop_stop n st [] e h = rw (h, read_loop)
  read_loop_stop n st (l ∷ ls) e h = rw (h, read_loop)

  read_loop_end :
      (n : ℕ) (st : SseEvent) → ctx n ≡ none → read_loop ctx n st [] rest f ≡ last_round st rest f
  unfolding read_loop
  read_loop_end n st h = rw (h, read_loop)

  read_loop_line :
      (n : ℕ) (st : SseEvent) (l : Bytes) (ls : List Bytes)
      → ctx n ≡ none
      → read_loop ctx n st (l ∷ ls) rest f ≡ (
        emit (parse_line st l).1 (read_loop ctx (suc n) (parse_line st l).0 ls rest f).0,
        (read_loop ctx (suc n) (parse_line st l).0 ls rest f).1,
      )
  unfolding read_loop
  read_loop_line n st l ls h = rw (h, read_loop)

  read_loop-IsCut :
      (n : ℕ) (st : SseEvent) (ls : List Bytes)
      → IsCut ctx (read_loop ctx n st ls rest f) (run st ls rest f)
  read_loop-IsCut n st [] = elim (Option-cases (ctx n)) [
    | inl go ↦ rw (read_loop_end n st go) (IsCut-refl ctx (last_round st rest f))
    | inr (e, stop) ↦
        rw (read_loop_stop n st [] e stop) (IsCut-stop ctx n e (last_round st rest f) stop)
  ]
  read_loop-IsCut n st (l ∷ ls) = elim (Option-cases (ctx n)) [
    | inl go ↦ rw (read_loop_line n st l ls go) (
        IsCut-emit ctx (parse_line st l).1 (read_loop ctx (suc n) (parse_line st l).0 ls rest f)
          (run (parse_line st l).0 ls rest f) (read_loop-IsCut (suc n) (parse_line st l).0 ls))
    | inr (e, stop) ↦
        rw (read_loop_stop n st (l ∷ ls) e stop) (IsCut-stop ctx n e (run st (l ∷ ls) rest f) stop)
  ]

-- Whenever the context is done, on any stream, the handler was called with a prefix of the events
-- that it is called with under a context that is never done; and the reader either did all that it
-- does then, with the same result, or returned an error that the context reported.
pub read_sse_events-IsCut :
    (ctx : ℕ → Option Failure) (s : Stream)
    → IsCut ctx (read_sse_events ctx s) (read_sse_events never s)
unfolding read_sse_events
read_sse_events-IsCut ctx s =
    rw (read_loop-run 0 no_event s.lines s.rest s.failure)
      (read_loop-IsCut ctx s.rest s.failure 0 no_event s.lines)
