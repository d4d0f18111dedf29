-- ===== src/Config/Persisted.antt =====
-- What `rss_config_save` (src/rss_config.c) leaves on the disk, whatever the system calls answer.
use raptor_common.Base.{
  ℕ, ◌+◌, ◌^◌, ◌≤◌, ◌<◌, Bool, true, false, not, ◌&&◌, Option, none, some, codes, length,
  length-append, Bytes, ◌++◌, ◌≡◌, ◌≢◌, refl, ◌∙◌, ap, inl, inr, arith, Bool-cases, Option-cases,
}
use raptor_common.Config.Edit.{has_dirty}
use raptor_common.Config.Save.{Saved, save, new_text, clear_dirty}
use raptor_common.Config.SaveLaws.{has_dirty-clear, save_clean, save_done, save_failed}
use raptor_common.Text.Copying.{take_all}
use raptor_common.Config.Types.{Config}
use raptor_common.FileIo.Atomic.{write_file_atomic-Atomic}
use raptor_common.FileIo.Calls.{System}
use raptor_common.FileIo.Contract.{Lawful}
use raptor_common.FileIo.Moving.{new_file, old_file}
use raptor_common.FileIo.Reading.{SizeFits, read_file-ReadsWhole, read_file-file, read_file_missing}
use raptor_common.FileIo.Writing.{NeverRefuses}
use raptor_common.FileIo.{unreadable, FileWritten, read_file, write_file_atomic}
use raptor_common.Config.OnDisk.{
  text_read, is_zero_result, lock_path, locked, unlocked, perform, disk_save,
}

lock_path_apart : (path : Bytes) → length path ≤ 506 → path ≢ lock_path path
lock_path_apart path h e =
    let longer = length-append path (codes ".lock") in
    let whole = take_all 511 (path ++ codes ".lock") (omega (arith, longer, h)) in
    absurd (omega (arith, longer, ap length (e ∙ whole)))

module _ (S : System) (L : Lawful S) where
  locked-file :
      (path q : Bytes) (s : S.State)
      → q ≢ lock_path path
      → L.file q (locked S path s).1 ≡ L.file q s
  unfolding locked
  locked-file path q s h = elim (Option-cases (S.open_lock (lock_path path) s).0) [
    | inl e ↦ rw (e, locked) (L.open_lock-file (lock_path path) q s h)
    | inr (fd, e) ↦
        rw (e, locked)
          (L.flock-file true fd q (S.open_lock (lock_path path) s).1
            ∙ L.open_lock-file (lock_path path) q s h)
  ]

  unlocked-file :
      (lock : Option ℕ) (q : Bytes) (s : S.State) → L.file q (unlocked S lock s) ≡ L.file q s
  unlocked-file none q s = refl
  unlocked-file (some fd) q s = L.close-file fd q (S.flock false fd s) ∙ L.flock-file false fd q s

  module _ (fuel : ℕ) (path : Bytes) (cfg : Config) (s : S.State) where
    abbrev s1 : S.State
    s1 = (locked S path s).1

    abbrev after_read : S.State
    after_read = (read_file S fuel path s1).1

    abbrev new : Bytes
    new = new_text cfg (L.file path s)

    abbrev wrote : FileWritten × S.State
    wrote = write_file_atomic S fuel path new after_read

    -- What is asked of a file that is there: its size, the fuel, and that this read succeeds.
    pub record IsReadable (bytes : Bytes) : Type 0 where
      pub short : length bytes + 1 < 2 ^ 30
      pub enough : length bytes + L.patience s1 < fuel
      pub succeeds : (read_file S fuel path s1).0 ≢ unreadable

    read_text :
        path ≢ lock_path path
        → SizeFits S L path s1
        → ((bytes : Bytes) → L.file path s ≡ some bytes → IsReadable bytes)
        → text_read (read_file S fuel path s1).0 ≡ L.file path s
    read_text apart fits readable =
        let same = locked-file path path s apart in
        elim (Option-cases (L.file path s)) [
          | inl missing ↦ rw (read_file_missing S L fuel path s1 (same ∙ missing), missing) refl
          | inr (bytes, there) ↦
              let given = readable bytes there in
              elim (read_file-ReadsWhole S L fuel path bytes s1 (same ∙ there) given.short fits
                given.enough) [
                  | inl whole ↦ rw (whole, there) refl
                  | inr (e, failing) ↦ absurd (given.succeeds e)
                ]
        ]

    abbrev writes : Bytes → Bool
    writes text = is_zero_result (write_file_atomic S fuel path text after_read).0

    abbrev performed : Saved → Saved × S.State
    performed = perform S fuel path (locked S path s).0 s after_read

    disk_save_read :
        text_read (read_file S fuel path s1).0 ≡ L.file path s
        → disk_save S fuel path cfg s
          ≡ performed (save (S.access path s) (L.file path s) writes cfg)
    unfolding disk_save
    disk_save_read read =
        ap (λ (text : Option Bytes). performed (save (S.access path s) text writes cfg)) read

    written-file :
        (new : Bytes) (ok : Bool) (c : Config) (q : Bytes)
        → L.file q (performed (record { ok = ok; config = c; written = some new })).1
          ≡ L.file q (write_file_atomic S fuel path new after_read).1
    unfolding perform
    written-file new ok c q =
        unlocked-file (locked S path s).0 q (write_file_atomic S fuel path new after_read).1

    -- What the disk holds afterwards.
    pub data Persisted (r : Saved × S.State) : Type 0 where
      untouched :
          r.0.ok ≡ true
          → has_dirty cfg ≡ false
          → L.file path r.1 ≡ L.file path s
          → L.file path s ≢ none
          → Persisted r
      saved :
          r.0.ok ≡ true → has_dirty r.0.config ≡ false → L.file path r.1 ≡ some new → Persisted r
      not_saved :
          r.0.ok ≡ false
          → ¬ NeverRefuses S L
          → r.0.config ≡ cfg
          → L.file path r.1 ≡ L.file path s
          → Persisted r

    disk_save-writes :
        path ≢ lock_path path
        → text_read (read_file S fuel path s1).0 ≡ L.file path s
        → ((p : Bytes) (t : S.State) → L.file p (S.unlink p t) ≡ none)
        → length new + L.patience after_read < fuel
        → (S.access path s && not (has_dirty cfg)) ≡ false
        → Persisted (disk_save S fuel path cfg s)
    unfolding perform
    disk_save-writes apart read gone enough a =
        let kept : L.file path after_read ≡ L.file path s =
          read_file-file S L fuel path path s1 ∙ locked-file path path s apart in
        elim (write_file_atomic-Atomic S L fuel path new after_read gone enough) [
          | new_file e f t ↦
              let done =
                save_done (S.access path s) (L.file path s) writes cfg a (ap is_zero_result e) in
              rw (disk_save_read read, done)
                (saved refl (has_dirty-clear cfg)
                  (written-file new true (clear_dirty cfg) path ∙ f))
          | old_file e failing f t ↦
              let refused =
                save_failed (S.access path s) (L.file path s) writes cfg a (ap is_zero_result e) in
              rw (disk_save_read read, refused)
                (not_saved refl failing refl (written-file new false cfg path ∙ f ∙ kept))
        ]

    -- If its read of the file, where one is there, does not give NULL, rss_config_save either finds
    -- nothing unsaved and leaves the file that is there alone, or puts the new text, computed from
    -- the file as it was, in its place and has nothing unsaved any more, or fails and leaves the
    -- file and the store as they were, which happens only if a call of the writer failed. The path
    -- has at most 506 bytes, the file less than 2^30 - 1 and a size below 2^31 - 1 from fstat,
    -- unlink removes files, and the fuel is above the sizes and the interruptions to come.
    pub disk_save-Persisted :
        length path ≤ 506
        → SizeFits S L path s1
        → ((p : Bytes) (t : S.State) → L.file p (S.unlink p t) ≡ none)
        → ((bytes : Bytes) → L.file path s ≡ some bytes → IsReadable bytes)
        → length new + L.patience after_read < fuel
        → Persisted (disk_save S fuel path cfg s)
    unfolding perform
    disk_save-Persisted short fits gone readable enough =
        let apart = lock_path_apart path short in
        let read = read_text apart fits readable in
        elim (Bool-cases (S.access path s && not (has_dirty cfg))) [
          | inl a ↦
              let there : S.access path s ≡ true = ground (arith, a) in
              let clean : has_dirty cfg ≡ false = ground (arith, a) in
              rw
                (
                  disk_save_read read,
                  save_clean (S.access path s) (L.file path s) writes cfg there clean,
                )
                (untouched refl clean refl
                  (λ missing. absurd (ground (arith, there, L.access_missing path s missing))))
          | inr a ↦ disk_save-writes apart read gone enough a
        ]
