-- ===== src/FileIo/Contract.antt =====
-- What the system calls of FileIo/Calls document, for the calls of src/rss_util.c and
-- src/rss_config.c.
use raptor_common.Base.{
  ℕ, ◌≤◌, ◌<◌, Bool, true, false, [], ◌++◌, Option, none, some, length, take, Bytes, ◌≡◌, ◌≢◌,
}
use raptor_common.FileIo.Calls.{System, Answer, interrupted, failed, done}

-- A read of at most `n` bytes of those that are left: how many interruptions can still come is
-- counted, and nothing is read only at the end.
abbrev pub ReadAnswer : ℕ → Bytes → Bytes → ℕ → ℕ → Answer Bytes → Type 0
ReadAnswer n before after patience patience' interrupted = (after ≡ before) × (patience' < patience)
ReadAnswer n before after patience patience' failed = Unit
ReadAnswer n before after patience patience' (done bs) =
    (before ≡ bs ++ after) × (length bs ≤ n) × (bs ≡ [] → before ≡ []) × (patience' ≤ patience)

-- A write of `bs` behind `old`: a write of no byte counts as an interruption.
abbrev pub WriteAnswer : Bytes → Bytes → Option Bytes → ℕ → ℕ → Answer ℕ → Type 0
WriteAnswer bs old new patience patience' interrupted = (new ≡ some old) × (patience' < patience)
WriteAnswer bs old new patience patience' failed = Unit
WriteAnswer bs old new patience patience' (done n) =
    (new ≡ some (old ++ take n bs))
    × (n ≤ length bs)
    × (n ≡ 0 → patience' < patience)
    × (patience' ≤ patience)

pub record Lawful (S : System) : Type 0 where
  -- The file of a name, the bytes that a descriptor has in front of it, the file it writes to, and a
  -- bound on the interruptions to come.
  pub file : Bytes → S.State → Option Bytes
  pub left : ℕ → S.State → Bytes
  pub target : ℕ → S.State → Option Bytes
  pub patience : S.State → ℕ
  pub open_read-file : (p q : Bytes) (s : S.State) → file q (S.open_read p s).1 ≡ file q s
  pub open_read-left :
      (p : Bytes) (s : S.State) (fd : ℕ)
      → (S.open_read p s).0 ≡ some fd
      → (file p s ≡ some (left fd (S.open_read p s).1))
        × (patience (S.open_read p s).1 ≤ patience s)
  pub read-ReadAnswer :
      (fd n : ℕ) (s : S.State)
      → 0 < n
      → let s' = (S.read fd n s).1 in
        ReadAnswer n (left fd s) (left fd s') (patience s) (patience s') (S.read fd n s).0
  pub read-file : (fd n : ℕ) (q : Bytes) (s : S.State) → file q (S.read fd n s).1 ≡ file q s
  pub open_new_refused :
      (p : Bytes) (mode : ℕ) (q : Bytes) (s : S.State)
      → (S.open_new p mode s).0 ≡ none
      → file q (S.open_new p mode s).1 ≡ file q s
  pub open_new-target :
      (p : Bytes) (mode : ℕ) (s : S.State) (fd : ℕ)
      → let s' = (S.open_new p mode s).1 in
        (S.open_new p mode s).0 ≡ some fd
        → (file p s' ≡ some []) × (target fd s' ≡ some p) × (patience s' ≤ patience s)
  pub open_new-file :
      (p : Bytes) (mode : ℕ) (q : Bytes) (s : S.State)
      → q ≢ p
      → file q (S.open_new p mode s).1 ≡ file q s
  pub write-WriteAnswer :
      (fd : ℕ) (bs p old : Bytes) (s : S.State)
      → let s' = (S.write fd bs s).1 in
        0 < length bs
        → target fd s ≡ some p
        → file p s ≡ some old
        → (target fd s' ≡ some p)
          × WriteAnswer bs old (file p s') (patience s) (patience s') (S.write fd bs s).0
  pub write-file :
      (fd : ℕ) (bs p q : Bytes) (s : S.State)
      → target fd s ≡ some p
      → q ≢ p
      → file q (S.write fd bs s).1 ≡ file q s
  pub fsync-file : (fd : ℕ) (q : Bytes) (s : S.State) → file q (S.fsync fd s).1 ≡ file q s
  pub close-file : (fd : ℕ) (q : Bytes) (s : S.State) → file q (S.close fd s) ≡ file q s
  pub rename_refused :
      (a b q : Bytes) (s : S.State)
      → (S.rename a b s).0 ≡ false
      → file q (S.rename a b s).1 ≡ file q s
  pub rename_moved :
      (a b : Bytes) (s : S.State)
      → (S.rename a b s).0 ≡ true
      → a ≢ b
      → (file b (S.rename a b s).1 ≡ file a s) × (file a (S.rename a b s).1 ≡ none)
  pub rename-file :
      (a b q : Bytes) (s : S.State) → q ≢ a → q ≢ b → file q (S.rename a b s).1 ≡ file q s
  pub unlink-file : (a q : Bytes) (s : S.State) → q ≢ a → file q (S.unlink a s) ≡ file q s
  pub access_there : (p c : Bytes) (s : S.State) → file p s ≡ some c → S.access p s ≡ true
  pub access_missing : (p : Bytes) (s : S.State) → file p s ≡ none → S.access p s ≡ false
  pub open_lock-file : (p q : Bytes) (s : S.State) → q ≢ p → file q (S.open_lock p s).1 ≡ file q s
  pub flock-file :
      (exclusive : Bool) (fd : ℕ) (q : Bytes) (s : S.State)
      → file q (S.flock exclusive fd s) ≡ file q s
