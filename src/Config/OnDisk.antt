-- ===== src/Config/OnDisk.antt =====
-- `rss_config_save` (src/rss_config.c) over a file system: what its calls of rss_read_file and
-- rss_write_file_atomic leave on the disk.
use raptor_common.Base.{ℕ, Bool, true, false, Option, none, some, codes, take, Bytes, ◌++◌}
use raptor_common.Config.Save.{Saved, save}
use raptor_common.Config.Types.{Config}
use raptor_common.FileIo.Calls.{System}
use raptor_common.FileIo.{FileRead, contents, FileWritten, replaced, read_file, write_file_atomic}

abbrev pub text_read : FileRead → Option Bytes
text_read (contents bytes) = some bytes
text_read _ = none

abbrev pub is_zero_result : FileWritten → Bool
is_zero_result replaced = true
is_zero_result _ = false

-- `snprintf(lockpath, sizeof(lockpath), "%s.lock", path)`
abbrev pub lock_path : Bytes → Bytes
lock_path path = take 511 (path ++ codes ".lock")

module _ (S : System) where
  -- The lock of the sidecar file, and its release.
  unfoldable pub locked : Bytes → S.State → Option ℕ × S.State
  locked path s =
      let (opened, s') = S.open_lock (lock_path path) s in
      elim opened [ none ↦ (none, s') | some fd ↦ (some fd, S.flock true fd s') ]

  abbrev pub unlocked : Option ℕ → S.State → S.State
  unlocked none s = s
  unlocked (some fd) s = S.close fd (S.flock false fd s)

  -- The new text goes to the disk where there is one; otherwise nothing was opened.
  unfoldable pub perform : ℕ → Bytes → Option ℕ → S.State → S.State → Saved → Saved × S.State
  perform fuel path lock s after_read result = elim result.written [
    | none ↦ (result, s)
    | some new ↦ (result, unlocked lock (write_file_atomic S fuel path new after_read).1)
  ]

  unfoldable pub disk_save : ℕ → Bytes → Config → S.State → Saved × S.State
  unfolding perform locked save
  disk_save fuel path cfg s =
      let (lock, s1) = locked path s in
      let (text, s2) = read_file S fuel path s1 in
      let writes : Bytes → Bool = λ new. is_zero_result (write_file_atomic S fuel path new s2).0 in
      perform fuel path lock s s2 (save (S.access path s) (text_read text) writes cfg)
