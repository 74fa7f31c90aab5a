-- ===== src/FileLock.antt =====
-- internal/filelock/filelock.go: a lock that is held while a file exists.
pub mod Exclusion
use mcp_remote_go.Base.{
  ℕ, Bool, true, false, List, [], ◌∷◌, ◌++◌, Option, none, some, if◌then◌else◌, Bytes, codes,
  Result, ok, err, ◌≡◌, ◌↔◌, refl, arith, ◌⊎◌, sym, ◌∙◌, Bool-cases, Option-cases, inl, inr,
}

-- `FileLock`; `file_open` tells whether `file` is not nil.
pub record FileLock : Type 0 where
  pub path : Bytes
  pub file_open : Bool
  pub acquired : Bool

-- `New`.
unfoldable pub new : Bytes → FileLock
new path = record { path = path ++ codes ".lock"; file_open = false; acquired = false }

pub data LockError : Type 0 where
  already_acquired timeout : LockError
  open_failed close_failed remove_failed : Bytes → LockError

-- What `os.OpenFile` with O_CREATE and O_EXCL gives: the new file, an error that says that the file
-- exists, or another error.
pub data Opening : Type 0 where
  created exists : Opening
  failed : Bytes → Opening

-- The loop of `Lock`, over what the attempts before the deadline meet.
unfoldable pub try_open : FileLock → List Opening → FileLock × Option LockError
try_open fl [] = (fl, some timeout)
try_open fl (created ∷ os) = (record fl { file_open = true; acquired = true }, none)
try_open fl (exists ∷ os) = try_open fl os
try_open fl (failed e ∷ os) = (fl, some (open_failed e))

-- `Lock`.
unfoldable pub lock : FileLock → List Opening → FileLock × Option LockError
unfolding try_open
lock fl os = if fl.acquired then (fl, some already_acquired) else try_open fl os

-- What `file.Close` and `os.Remove` give; that there is no such file is no error here.
pub record Closing : Type 0 where
  pub close_error : Option Bytes
  pub remove_error : Option Bytes

abbrev close_result : Bool → Option Bytes → Option LockError
close_result true (some e) = some (close_failed e)
close_result true none = none
close_result false e = none

abbrev unlock_result : Option LockError → Option Bytes → Option LockError
unlock_result (some e) remove_error = some e
unlock_result none (some e) = some (remove_failed e)
unlock_result none none = none

-- `Unlock`.
unfoldable pub unlock : FileLock → Closing → FileLock × Option LockError
unlock fl c =
    if fl.acquired
    then (
      record fl { file_open = false; acquired = false },
      unlock_result (close_result fl.file_open c.close_error) c.remove_error,
    )
    else (fl, none)

-- `WithLock`: `fn` maps the state that it shares with others to its result and the new state.
unfoldable pub with_lock {ℓ κ} :
    {S : Type ℓ} {E : Type κ}
    → (LockError → E)
    → FileLock
    → List Opening
    → Closing
    → (S → S × Option E)
    → S
    → FileLock × S × Option E
with_lock wrap fl os c fn s = elim (lock fl os).1 [
  | some e ↦ ((lock fl os).0, s, some (wrap e))
  | none ↦ ((unlock (lock fl os).0 c).0, (fn s).0, (fn s).1)
]

-- The invariant of a lock: it has a file exactly while it is acquired.
abbrev pub IsConsistent : FileLock → Type 0
IsConsistent fl = fl.file_open ≡ fl.acquired

some-ne-none : {e : LockError} → some e ≡ none → ⊥
some-ne-none h = cc

try_open_lem :
    (fl : FileLock) (os : List Opening)
    → IsConsistent fl
    → fl.acquired ≡ false
    → IsConsistent (try_open fl os).0
      × (((try_open fl os).1 ≡ none) ↔ ((try_open fl os).0.acquired ≡ true))
unfolding try_open
try_open_lem fl [] c h = ground arith
try_open_lem fl (created ∷ os) c h = ground arith
try_open_lem fl (exists ∷ os) c h = try_open_lem fl os c h
try_open_lem fl (failed e ∷ os) c h = ground arith

lock_free : (fl : FileLock) (os : List Opening) → fl.acquired ≡ false → lock fl os ≡ try_open fl os
unfolding lock
lock_free fl os h = ground arith

-- `Lock` on a lock that is not acquired keeps the invariant, whatever its attempts meet, and reports
-- no error exactly if it has acquired the lock.
pub lock_lem :
    (fl : FileLock) (os : List Opening)
    → IsConsistent fl
    → fl.acquired ≡ false
    → IsConsistent (lock fl os).0 × (((lock fl os).1 ≡ none) ↔ ((lock fl os).0.acquired ≡ true))
lock_lem fl os c h = rw (lock_free fl os h) (try_open_lem fl os c h)

-- A lock that is acquired is refused, and stays as it is.
pub lock_acquired :
    (fl : FileLock) (os : List Opening)
    → fl.acquired ≡ true
    → lock fl os ≡ (fl, some already_acquired)
unfolding lock
lock_acquired fl os h = ground arith

unlock_free : (fl : FileLock) (c : Closing) → (unlock fl c).0.acquired ≡ false
unfolding unlock
unlock_free fl c = ground arith

lock_failed :
    (fl : FileLock) (os : List Opening) (e : LockError)
    → IsConsistent fl
    → fl.acquired ≡ false
    → (lock fl os).1 ≡ some e
    → (lock fl os).0.acquired ≡ false
lock_failed fl os e c h refused =
    let (_, (done, acquired)) = lock_lem fl os c h in
    elim (Bool-cases (lock fl os).0.acquired) [
      | inl held ↦ absurd (some-ne-none (sym refused ∙ acquired held))
      | inr free ↦ free
    ]

module _ {ℓ κ} {S : Type ℓ} {E : Type κ} (wrap : LockError → E) (fn : S → S × Option E)
    (fl : FileLock) (os : List Opening) (c : Closing) (s : S) where
  -- `WithLock` on a lock that is not acquired leaves it so. It runs the function exactly once and
  -- returns its result, or it has an error of `Lock`, which it returns, and the function has not run.
  pub with_lock_lem :
      IsConsistent fl
      → fl.acquired ≡ false
      → ((with_lock wrap fl os c fn s).0.acquired ≡ false)
        × ((((with_lock wrap fl os c fn s).1 ≡ (fn s).0)
              × ((with_lock wrap fl os c fn s).2 ≡ (fn s).1))
            ⊎ ((e : LockError) × ((lock fl os).1 ≡ some e)
                × ((with_lock wrap fl os c fn s).1 ≡ s)
                × ((with_lock wrap fl os c fn s).2 ≡ some (wrap e))))
  unfolding with_lock
  with_lock_lem con free = elim (Option-cases (lock fl os).1) [
    | inl locked ↦ rw (locked, with_lock) (unlock_free (lock fl os).0 c, inl (refl, refl))
    | inr (e, refused) ↦
        rw (refused, with_lock) (lock_failed fl os e con free refused, inr (e, refl, refl, refl))
  ]
