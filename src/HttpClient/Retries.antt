-- ===== src/HttpClient/Retries.antt =====
-- internal/httpclient/client.go: the attempts of `Do`.
use mcp_remote_go.Base.{
  ok, err, Bytes, refl, sym, ap, ◌⊎◌, ℕ, zero, suc, ◌≤◌, ◌<◌, ◌≡◌, ◌∙◌, Option, none, some, arith,
  Option-cases, inl, inr,
}
use mcp_remote_go.HttpClient.{
  Config, ClientError, attempts_failed, http_status, context_done, Response, World, Outcome,
  do_single, before_attempt, after_attempt, do_loop, send,
}

-- Attempt `n` is made and the loop goes on behind it.
pub record GoesOn (w : World) (n : ℕ) : Type 0 where
  pub waited : before_attempt w n ≡ none
  pub retried : after_attempt w n ≡ none

-- The wait in front of attempt `n` is not cut short; there is none in front of the first.
abbrev pub Waits : World → ℕ → Type 0
Waits w zero = Unit
Waits w (suc n) = w.done_waiting (suc n) ≡ none

-- Attempt `n` meets an error before there is a response, or a status of 500 or more.
abbrev pub MayRetry : World → ℕ → Type 0
MayRetry w n =
    ((e : Bytes) × (w.exchange n ≡ err e))
    ⊎ ((resp : Response) × (w.exchange n ≡ ok resp) × (500 ≤ resp.status_code))

-- Attempt `n` is made, is worth another one, and the context is not done behind it.
pub record IsVain (w : World) (n : ℕ) : Type 0 where
  pub waited : Waits w n
  pub may_retry : MayRetry w n
  pub not_done : w.done_after n ≡ none

abbrev pub InVain : World → ℕ → ℕ → Type 0
InVain w n zero = Unit
InVain w n (suc k) = IsVain w n × InVain w (suc n) k

-- Attempt `n` succeeds with a status below 400; or meets a status from 400 to 499, the context not
-- done; or fails in any way while the context is done.
abbrev pub IsLast : World → ℕ → Outcome → Type 0
IsLast w n o =
    ((resp : Response) × (w.exchange n ≡ ok resp)
      × (resp.status_code < 400)
      × (o ≡ (some resp, none)))
    ⊎ (((resp : Response) × (w.exchange n ≡ ok resp)
          × (400 ≤ resp.status_code)
          × (resp.status_code < 500)
          × (w.done_after n ≡ none)
          × (o ≡ (some resp, some (http_status resp.status_code resp.body_bytes))))
        ⊎ ((c : Bytes) × (w.done_after n ≡ some c)
            × (((e : Bytes) × (w.exchange n ≡ err e))
                ⊎ ((resp : Response) × (w.exchange n ≡ ok resp) × (400 ≤ resp.status_code)))
            × (o ≡ (none, some (context_done c)))))

-- From attempt `n` on, `k` attempts are made in vain, and the next one is the last.
abbrev pub EndsAfter : World → ℕ → ℕ → Outcome → Type 0
EndsAfter w n zero o = Waits w n × IsLast w n o
EndsAfter w n (suc k) o = IsVain w n × EndsAfter w (suc n) k o

Waits-before_attempt : (w : World) (n : ℕ) → Waits w n → before_attempt w n ≡ none
unfolding before_attempt
Waits-before_attempt w zero h = refl
Waits-before_attempt w (suc n) h = rw (h, before_attempt)

module _ (w : World) (n : ℕ) where
  MayRetry-after_attempt : MayRetry w n → w.done_after n ≡ none → after_attempt w n ≡ none
  unfolding after_attempt do_single
  MayRetry-after_attempt (inl (e, failed)) on = ground arith
  MayRetry-after_attempt (inr (resp, got, high)) on = rw (got, after_attempt) (ground arith)

  IsLast-after_attempt : (o : Outcome) → IsLast w n o → after_attempt w n ≡ some o
  unfolding after_attempt do_single
  IsLast-after_attempt o (inl (resp, got, low, same)) =
      rw (got, after_attempt) (ground arith) ∙ ap some (sym same)
  IsLast-after_attempt o (inr (inl (resp, got, low, high, on, same))) =
      rw (got, after_attempt) (ground arith) ∙ ap some (sym same)
  IsLast-after_attempt o (inr (inr (c, done, inl (e, failed), same))) =
      rw (failed, after_attempt) (rw done) ∙ ap some (sym same)
  IsLast-after_attempt o (inr (inr (c, done, inr (resp, got, low), same))) =
      rw (got, after_attempt) (ground arith) ∙ ap some (sym same)

  IsVain-GoesOn : IsVain w n → GoesOn w n
  IsVain-GoesOn h = record {
    waited = Waits-before_attempt w n h.waited;
    retried = MayRetry-after_attempt h.may_retry h.not_done;
  }

-- The error of the last of `k` attempts from `n` on.
abbrev pub last_error : World → ℕ → ℕ → Option ClientError → Option ClientError
last_error w n zero last = last
last_error w n (suc k) last = last_error w (suc n) k (do_single (w.exchange n)).1

module _ (w : World) (total : ℕ) where
  do_loop_on :
      (left n : ℕ) (last : Option ClientError)
      → GoesOn w n
      → do_loop w total (suc left) n last ≡ (
        suc (do_loop w total left (suc n) (do_single (w.exchange n)).1).0,
        (do_loop w total left (suc n) (do_single (w.exchange n)).1).1,
      )
  unfolding do_loop
  do_loop_on left n last g = rw (g.waited, g.retried, do_loop)

  do_loop_end :
      (left n : ℕ) (last : Option ClientError) {o : Outcome}
      → before_attempt w n ≡ none
      → after_attempt w n ≡ some o
      → do_loop w total (suc left) n last ≡ (1, o)
  unfolding do_loop
  do_loop_end left n last b a = rw (b, a, do_loop)

  do_loop_stop :
      (left n : ℕ) (last : Option ClientError) {o : Outcome}
      → before_attempt w n ≡ some o
      → do_loop w total (suc left) n last ≡ (0, o)
  unfolding do_loop
  do_loop_stop left n last b = rw (b, do_loop)

  do_loop-le : (left n : ℕ) (last : Option ClientError) → (do_loop w total left n last).0 ≤ left
  do_loop-le zero n last = unfold do_loop in omega arith
  do_loop-le (suc left) n last = elim (Option-cases (before_attempt w n)) [
    | inr (o, stop) ↦ rw (do_loop_stop left n last stop) (omega arith)
    | inl waited ↦ elim (Option-cases (after_attempt w n)) [
      | inr (o, end) ↦ rw (do_loop_end left n last waited end) (omega arith)
      | inl retried ↦
          rw (do_loop_on left n last (record { waited = waited; retried = retried }))
            (omega (arith, do_loop-le left (suc n) (do_single (w.exchange n)).1))
    ]
  ]

  do_loop-ends :
      (k left n : ℕ) (last : Option ClientError) (o : Outcome)
      → k < left
      → EndsAfter w n k o
      → do_loop w total left n last ≡ (suc k, o)
  do_loop-ends k zero n last o lt h = absurd (omega arith)
  do_loop-ends zero (suc left) n last o lt h =
      do_loop_end left n last (Waits-before_attempt w n h.0) (IsLast-after_attempt w n o h.1)
  do_loop-ends (suc k) (suc left) n last o lt h =
      do_loop_on left n last (IsVain-GoesOn w n h.0)
      ∙ rw (do_loop-ends k left (suc n) (do_single (w.exchange n)).1 o (omega arith) h.1)

  do_loop-vain :
      (left n : ℕ) (last : Option ClientError) (e : ClientError)
      → InVain w n left
      → last_error w n left last ≡ some e
      → do_loop w total left n last ≡ (left, (none, some (attempts_failed total e)))
  unfolding do_loop
  do_loop-vain zero n last e h l = rw l
  do_loop-vain (suc left) n last e h l =
      do_loop_on left n last (IsVain-GoesOn w n h.0)
      ∙ rw (do_loop-vain left (suc n) (do_single (w.exchange n)).1 e h.1 l)

module _ (w : World) (config : Config) where
  -- `Do` sends at most `MaxRetries + 1` requests, whatever it meets.
  pub send-le : (send w config).0 ≤ suc config.max_retries
  unfolding send
  send-le = do_loop-le w (suc config.max_retries) (suc config.max_retries) 0 none

  -- If `k` attempts, at most `MaxRetries`, meet an error or a status of 500 or more, no wait between
  -- them is cut short and the context is not done behind them, and the next one gets a status below
  -- 400, or a status from 400 to 499, or fails while the context is done, then `Do` has sent `k + 1`
  -- requests and returns the response alone, the response with its error, or the error of the
  -- context alone.
  pub send-ends :
      (k : ℕ) (o : Outcome)
      → k ≤ config.max_retries
      → EndsAfter w 0 k o
      → send w config ≡ (suc k, o)
  unfolding send
  send-ends k o le h =
      do_loop-ends w (suc config.max_retries) k (suc config.max_retries) 0 none o (omega arith) h

  -- If all attempts are made in vain, `Do` returns no response and the error of the last one, with
  -- the number of attempts.
  pub send-vain :
      (e : ClientError)
      → InVain w 0 (suc config.max_retries)
      → last_error w 0 (suc config.max_retries) none ≡ some e
      → send w config
        ≡ (suc config.max_retries, (none, some (attempts_failed (suc config.max_retries) e)))
  unfolding send
  send-vain e h l = do_loop-vain w (suc config.max_retries) (suc config.max_retries) 0 none e h l
