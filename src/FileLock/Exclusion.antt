-- ===== src/FileLock/Exclusion.antt =====
-- internal/filelock/filelock.go: processes that share one lock file.
use mathlib.Core.Bool.{false≢true}
use mcp_remote_go.Base.{
  ℕ, ◌≡◌, ◌≢◌, refl, sym, ◌∙◌, ◌⊎◌, inl, inr, Bool, true, false, arith, ◌==◌, if◌then◌else◌,
  Bool-cases, ==_iff,
}

-- Where a process is: outside, in the function of `WithLock`, or behind it, before `os.Remove`.
pub data Phase : Type 0 where
  outside inside leaving : Phase

-- Whether the lock file exists, and where each process is.
pub record Shared : Type 0 where
  pub file_exists : Bool
  pub phase : ℕ → Phase

abbrev pub update : (ℕ → Phase) → ℕ → Phase → ℕ → Phase
update phase n p m = if m == n then p else phase m

-- What one process does at a time: `os.OpenFile` creates the file and fails if it exists; a process
-- that has created the file runs its function and then removes the file. A process that finds the file
-- until its deadline gives up. `os.Remove` may fail, and a process may be killed while it holds the
-- lock; both leave the file behind.
pub data Step : Shared → Shared → Type 0 where
  create :
      {s : Shared} (n : ℕ)
      → s.phase n ≡ outside
      → s.file_exists ≡ false
      → Step s (record { file_exists = true; phase = update s.phase n inside })
  finish :
      {s : Shared} (n : ℕ)
      → s.phase n ≡ inside
      → Step s (record { file_exists = s.file_exists; phase = update s.phase n leaving })
  remove :
      {s : Shared} (n : ℕ)
      → s.phase n ≡ leaving
      → Step s (record { file_exists = false; phase = update s.phase n outside })
  give_up : {s : Shared} (n : ℕ) → s.phase n ≡ outside → s.file_exists ≡ true → Step s s
  fail_to_remove :
      {s : Shared} (n : ℕ)
      → s.phase n ≡ leaving
      → Step s (record { file_exists = s.file_exists; phase = update s.phase n outside })
  kill :
      {s : Shared} (n : ℕ)
      → s.phase n ≢ outside
      → Step s (record { file_exists = s.file_exists; phase = update s.phase n outside })

pub data Reach (s : Shared) : Shared → Type 0 where
  here : Reach s s
  next : {t u : Shared} → Reach s t → Step t u → Reach s u

-- A process that is not outside has created the file, and is the only one.
pub record IsExclusive (s : Shared) : Type 0 where
  pub exists : (n : ℕ) → s.phase n ≢ outside → s.file_exists ≡ true
  pub unique : (m n : ℕ) → s.phase m ≢ outside → s.phase n ≢ outside → m ≡ n

update-moved :
    (phase : ℕ → Phase) (n m : ℕ) (p : Phase)
    → update phase n p m ≢ outside
    → (m ≡ n) ⊎ (phase m ≢ outside)
update-moved phase n m p h = elim (Bool-cases (m == n)) [
  | inl same ↦ inl ((==_iff m n).0 same)
  | inr other ↦ inr (rw other at h)
]

-- A process that was not outside still is not, if another one, or none, went outside.
update-stayed :
    (phase : ℕ → Phase) (n m : ℕ)
    → update phase n outside m ≢ outside
    → (m ≢ n) × (phase m ≢ outside)
update-stayed phase n m h = elim (Bool-cases (m == n)) [
  | inl same ↦ absurd ((rw same at h) refl)
  | inr other ↦ (ground arith, rw other at h)
]

pub inside-ne-outside : {p : Phase} → p ≡ inside → p ≢ outside
inside-ne-outside h e = cc

leaving-ne-outside : {p : Phase} → p ≡ leaving → p ≢ outside
leaving-ne-outside h e = cc

module _ (s : Shared) (h : IsExclusive s) where
  -- Nobody is inside while the file does not exist, so only the process that creates it moves.
  create-only : (n m : ℕ) → s.file_exists ≡ false → update s.phase n inside m ≢ outside → m ≡ n
  create-only n m e q = elim (update-moved s.phase n m inside q) [
    | inl same ↦ same
    | inr busy ↦ absurd (false≢true (sym e ∙ h.exists m busy))
  ]

  finish-busy :
      (n m : ℕ) → s.phase n ≡ inside → update s.phase n leaving m ≢ outside → s.phase m ≢ outside
  finish-busy n m p q = elim (update-moved s.phase n m leaving q) [
    | inl same ↦ rw same (inside-ne-outside p)
    | inr busy ↦ busy
  ]

  remove-none : (n m : ℕ) → s.phase n ≡ leaving → update s.phase n outside m ≢ outside → ⊥
  remove-none n m p q =
      let (other, busy) = update-stayed s.phase n m q in
      other (h.unique m n busy (leaving-ne-outside p))

  -- Whoever leaves the lock and its file behind, the others are as they were.
  dropped-IsExclusive :
      (n : ℕ)
      → IsExclusive (record { file_exists = s.file_exists; phase = update s.phase n outside })
  dropped-IsExclusive n = record {
    exists = λ m q. h.exists m (update-stayed s.phase n m q).1;
    unique =
        λ m k q r. h.unique m k (update-stayed s.phase n m q).1 (update-stayed s.phase n k r).1;
  }

Step-IsExclusive : {s t : Shared} → Step s t → IsExclusive s → IsExclusive t
Step-IsExclusive (create {s} n p e) h = record {
  exists = λ m q. refl;
  unique = λ m k q r. create-only s h n m e q ∙ sym (create-only s h n k e r);
}
Step-IsExclusive (finish {s} n p) h = record {
  exists = λ m q. h.exists m (finish-busy s h n m p q);
  unique = λ m k q r. h.unique m k (finish-busy s h n m p q) (finish-busy s h n k p r);
}
Step-IsExclusive (remove {s} n p) h = record {
  exists = λ m q. absurd (remove-none s h n m p q);
  unique = λ m k q r. absurd (remove-none s h n m p q);
}
Step-IsExclusive (give_up n p e) h = h
Step-IsExclusive (fail_to_remove {s} n p) h = dropped-IsExclusive s h n
Step-IsExclusive (kill {s} n p) h = dropped-IsExclusive s h n

Reach-IsExclusive : {s t : Shared} → IsExclusive s → Reach s t → IsExclusive t
Reach-IsExclusive h here = h
Reach-IsExclusive h (next r st) = Step-IsExclusive st (Reach-IsExclusive h r)

-- All processes are outside; the lock file may exist.
abbrev pub start : Bool → Shared
start file_exists = record { file_exists = file_exists; phase = λ n. outside }

start-IsExclusive : (b : Bool) → IsExclusive (start b)
start-IsExclusive b = record {
  exists = λ n q. absurd (q refl);
  unique = λ m n q r. absurd (q refl);
}

-- Mutual exclusion: whatever the processes do one after the other, from a state in which all of them
-- are outside, two processes that run their functions at once are the same process.
pub mutual_exclusion :
    (b : Bool) {t : Shared} (m n : ℕ)
    → Reach (start b) t
    → t.phase m ≡ inside
    → t.phase n ≡ inside
    → m ≡ n
mutual_exclusion b m n r p q =
    (Reach-IsExclusive (start-IsExclusive b) r).unique m n (inside-ne-outside p)
      (inside-ne-outside q)

-- Nobody is inside, and the lock file is there.
abbrev IsStuck : Shared → Type 0
IsStuck s = (s.file_exists ≡ true) × ((n : ℕ) → s.phase n ≡ outside)

Step-IsStuck : {s t : Shared} → Step s t → IsStuck s → IsStuck t
Step-IsStuck (create n p e) h = absurd (false≢true (sym e ∙ h.0))
Step-IsStuck (finish n p) h = absurd (inside-ne-outside p (h.1 n))
Step-IsStuck (remove n p) h = absurd (leaving-ne-outside p (h.1 n))
Step-IsStuck (give_up n p e) h = h
Step-IsStuck (fail_to_remove n p) h = absurd (leaving-ne-outside p (h.1 n))
Step-IsStuck (kill n p) h = absurd (p (h.1 n))

Reach-IsStuck : {s t : Shared} → IsStuck s → Reach s t → IsStuck t
Reach-IsStuck h here = h
Reach-IsStuck h (next r st) = Step-IsStuck st (Reach-IsStuck h r)

outside_or_not : (p : Phase) → (p ≡ outside) ⊎ (p ≢ outside)
outside_or_not outside = inl refl
outside_or_not inside = inr (inside-ne-outside refl)
outside_or_not leaving = inr (leaving-ne-outside refl)

-- The state behind the death of a process: the file stays.
abbrev pub killed : Shared → ℕ → Shared
killed s k = record { file_exists = s.file_exists; phase = update s.phase k outside }

killed-IsStuck : (s : Shared) (k : ℕ) → IsExclusive s → s.phase k ≢ outside → IsStuck (killed s k)
killed-IsStuck s k h busy = (
  h.exists k busy,
  λ m. elim (outside_or_not (update s.phase k outside m)) [
    | inl out ↦ out
    | inr still ↦
        let (other, held) = update-stayed s.phase k m still in
        absurd (other (h.unique m k held busy))
  ],
)

-- Nothing recovers from a lock that is left behind: if a process is killed while it is in the lock,
-- inside its function or before `os.Remove`, then whatever the processes do from there on, the lock
-- file stays, and no process ever gets to run its function.
pub stale_lock :
    (b : Bool) {s t : Shared} (k n : ℕ)
    → Reach (start b) s
    → s.phase k ≢ outside
    → Reach (killed s k) t
    → (t.file_exists ≡ true) × (t.phase n ≡ outside)
stale_lock b {s} k n before busy after =
    let stuck =
      Reach-IsStuck (killed-IsStuck s k (Reach-IsExclusive (start-IsExclusive b) before) busy)
        after in
    (stuck.0, stuck.1 n)
