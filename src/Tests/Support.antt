-- ===== src/Tests/Support.antt =====
-- The internal packages: filelock, httpclient and errors.
use mcp_remote_go.Base.{
  inl, inr, ℕ, suc, ◌≡◌, ◌↔◌, ◌⊎◌, refl, true, false, List, [], ◌∷◌, Option, none, some, arith,
  codes, ok, ◌==◌, if◌then◌else◌,
}
use mcp_remote_go.FileLock.{
  FileLock, LockError, already_acquired, Opening, created, exists, Closing, lock, with_lock,
  lock_acquired, with_lock_lem,
}
use mcp_remote_go.FileLock.Exclusion.{
  killed, give_up, inside-ne-outside, Shared, outside, inside, create, Reach, here, next, start,
  mutual_exclusion, stale_lock,
}
use mcp_remote_go.HttpClient.{
  Config, Response, http_status, World, before_attempt, after_attempt, do_single, send,
}
use mcp_remote_go.HttpClient.Retries.{send-ends}
use mcp_remote_go.AppError.{AppError, nil, network_error, server_error, is_type, to_error}
use mcp_remote_go.AppError.Types.{wrap_all, is_type-wrap_all}

abbrev free_lock : FileLock
free_lock = record { path = codes "a.lock"; file_open = false; acquired = false }

abbrev held_lock : FileLock
held_lock = record { path = codes "a.lock"; file_open = true; acquired = true }

abbrev openings : List Opening
openings = exists ∷ exists ∷ created ∷ []

lock_acquired_example : lock held_lock openings ≡ (held_lock, some already_acquired)
lock_acquired_example = lock_acquired held_lock openings refl

abbrev clean : Closing
clean = record { close_error = none; remove_error = none }

abbrev count : ℕ → ℕ × Option LockError
count n = (suc n, none)

abbrev as_is : LockError → LockError
as_is e = e

with_lock_lem_example :
    ((with_lock as_is free_lock openings clean count 4).0.acquired ≡ false)
    × ((((with_lock as_is free_lock openings clean count 4).1 ≡ 5)
          × ((with_lock as_is free_lock openings clean count 4).2 ≡ none))
        ⊎ ((e : LockError) × ((lock free_lock openings).1 ≡ some e)
            × ((with_lock as_is free_lock openings clean count 4).1 ≡ 4)
            × ((with_lock as_is free_lock openings clean count 4).2 ≡ some e)))
with_lock_lem_example = with_lock_lem as_is count free_lock openings clean 4 refl refl

abbrev occupied : Shared
occupied = record { file_exists = true; phase = λ m. if m == 3 then inside else outside }

Reach-occupied : Reach (start false) occupied
Reach-occupied = next here (create 3 refl refl)

abbrev holder : ℕ
holder = 3

mutual_exclusion_example : holder ≡ holder
mutual_exclusion_example = mutual_exclusion false holder holder Reach-occupied refl refl

-- The holder is killed, and another process waits in vain.
Reach-stuck : Reach (killed occupied holder) (killed occupied holder)
Reach-stuck = next here (give_up 5 refl refl)

stale_lock_example :
    ((killed occupied holder).file_exists ≡ true) × ((killed occupied holder).phase 5 ≡ outside)
stale_lock_example = stale_lock false holder 5 Reach-occupied (inside-ne-outside refl) Reach-stuck

abbrev config : Config
config = record { timeout = 30000; max_retries = 2; retry_delay = 10; default_headers = [] }

abbrev answer : ℕ → Response
answer status = record { status_code = status; body_bytes = [] }

-- Every attempt but the one with this number meets a 503; that one meets the status.
abbrev world : ℕ → ℕ → World
world k status = record {
  exchange = λ n. if n == k then ok (answer status) else ok (answer 503);
  done_after = λ n. none;
  done_waiting = λ n. none;
}

send-ends_example : send (world 1 403) config ≡ (2, (some (answer 403), some (http_status 403 [])))
unfolding before_attempt after_attempt do_single
send-ends_example =
    send-ends (world 1 403) config 1 (some (answer 403), some (http_status 403 [])) (omega arith)
      (
        record { waited = tt; may_retry = inr (answer 503, refl, omega arith); not_done = refl },
        (refl, inr (inl (answer 403, refl, omega arith, omega arith, refl, refl))),
      )

abbrev failure : AppError
failure = record {
  error_type = network_error;
  message = codes "m";
  details = [];
  status_code = 503;
  cause = nil;
}

is_type-wrap_all_example :
    (is_type (wrap_all (codes "a" ∷ codes "b" ∷ []) (to_error failure)) server_error ≡ true)
    ↔ (network_error ≡ server_error)
is_type-wrap_all_example = is_type-wrap_all (codes "a" ∷ codes "b" ∷ []) failure server_error

abbrev status : ℕ
status = 403
