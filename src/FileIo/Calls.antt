-- ===== src/FileIo/Calls.antt =====
-- The system calls of `rss_read_file` and `rss_write_file_atomic` (src/rss_util.c) and of
-- `rss_config_save` (src/rss_config.c), over an unknown state.
use raptor_common.Base.{ℕ, Bool, Option, Bytes}

-- The result of a read or a write: -1 with EINTR, -1 with another error, or what it returns.
pub data Answer (A : Type 0) : Type 0 where
  interrupted failed : Answer A
  done : A → Answer A

pub record System : Type 1 where
  pub State : Type 0
  -- Whether malloc and realloc give a block of this size.
  pub alloc : ℕ → Bool
  -- open(path, O_RDONLY), fstat and stat, which give `st_size` and `st_mode`
  pub open_read : Bytes → State → Option ℕ × State
  pub file_size : ℕ → State → Option ℕ
  pub file_mode : Bytes → State → Option ℕ
  pub read : ℕ → ℕ → State → Answer Bytes × State
  -- open(path, O_WRONLY | O_CREAT | O_TRUNC | O_NOFOLLOW, mode)
  pub open_new : Bytes → ℕ → State → Option ℕ × State
  pub write : ℕ → Bytes → State → Answer ℕ × State
  pub fsync : ℕ → State → Bool × State
  pub close : ℕ → State → State
  pub rename : Bytes → Bytes → State → Bool × State
  pub unlink : Bytes → State → State
  -- access(path, F_OK), open(path, O_WRONLY | O_CREAT, 0644), and flock with LOCK_EX or LOCK_UN
  pub access : Bytes → State → Bool
  pub open_lock : Bytes → State → Option ℕ × State
  pub flock : Bool → ℕ → State → State
