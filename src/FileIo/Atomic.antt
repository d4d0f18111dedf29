-- ===== src/FileIo/Atomic.antt =====
-- What `rss_write_file_atomic` (src/rss_util.c) leaves in the file system.
use raptor_common.Base.{
  ℕ, ◌+◌, ◌<◌, [], Option, none, some, length, Bytes, ◌≡◌, ◌≢◌, refl, ◌∙◌, inl, inr, arith,
  Bool-cases, Option-cases,
}
use raptor_common.FileIo.Calls.{System}
use raptor_common.FileIo.Contract.{Lawful}
use raptor_common.FileIo.Writing.{
  NeverRefuses, all_there, given_up, write_loop-Wrote, write_loop-file,
}
use raptor_common.FileIo.{refused, temporary, write_loop, move_over, mode_for, write_file_atomic}
use raptor_common.FileIo.Moving.{
  temporary_apart, Atomic, old_file, move_over-file, move_over-Atomic,
}

module _ (S : System) (L : Lawful S) where
  -- What `rss_write_file_atomic` does in front of its loop, and behind it.
  module _ (fuel : ℕ) (path bytes : Bytes) (s : S.State) where
    abbrev tmp : Bytes
    tmp = temporary path

    abbrev open_tmp : Option ℕ × S.State
    open_tmp = S.open_new tmp (mode_for S (S.file_mode path s)) s

    abbrev after_loop : ℕ → S.State
    after_loop fd = (write_loop S fuel fd bytes open_tmp.1).1

    data Course : Type 0 where
      no_memory : ¬ NeverRefuses S L → write_file_atomic S fuel path bytes s ≡ (refused, s) → Course
      not_opened :
          open_tmp.0 ≡ none → write_file_atomic S fuel path bytes s ≡ (refused, open_tmp.1) → Course
      not_written :
          (fd : ℕ)
          → open_tmp.0 ≡ some fd
          → ¬ NeverRefuses S L
          → write_file_atomic S fuel path bytes s
            ≡ (refused, S.unlink tmp (S.close fd (after_loop fd)))
          → Course
      written :
          (fd : ℕ)
          → open_tmp.0 ≡ some fd
          → L.file tmp (after_loop fd) ≡ some bytes
          → write_file_atomic S fuel path bytes s ≡ move_over S path fd (after_loop fd)
          → Course

    course : length bytes + L.patience s < fuel → Course
    unfolding write_file_atomic
    course enough = elim (Bool-cases (S.alloc (length path + 5))) [
      | inr a ↦
          no_memory (λ g. absurd (ground (arith, a, g.allocates (length path + 5))))
            (rw (a, write_file_atomic) refl)
      | inl a ↦ elim (Option-cases open_tmp.0) [
        | inl o ↦ not_opened o (rw (a, o, write_file_atomic) refl)
        | inr (fd, o) ↦
            let (empty, aimed, less) =
              L.open_new-target tmp (mode_for S (S.file_mode path s)) s fd o in
            elim (write_loop-Wrote S L fuel fd tmp [] bytes open_tmp.1 aimed empty
              (omega (arith, enough, less))) [
                | given_up e failing ↦
                    not_written fd o failing (rw (a, o, e, write_file_atomic) refl)
                | all_there e f ↦ written fd o f (rw (a, o, e, write_file_atomic) refl)
              ]
      ]
    ]

    loop_kept :
        (q : Bytes) (fd : ℕ)
        → open_tmp.0 ≡ some fd
        → q ≢ tmp
        → L.file q (after_loop fd) ≡ L.file q s
    loop_kept q fd o h =
        let mode = mode_for S (S.file_mode path s) in
        let (empty, aimed, less) = L.open_new-target tmp mode s fd o in
        write_loop-file S L fuel fd tmp [] bytes q open_tmp.1 aimed empty h
        ∙ L.open_new-file tmp mode q s h

    -- rss_write_file_atomic replaces the file by one that holds exactly the bytes and returns 0,
    -- or returns -1 and leaves the file as it was, which happens only if an allocation or a call
    -- failed; it leaves no temporary file behind that was not there, if unlink removes files. Its
    -- loop makes at most as many rounds as there are bytes and interruptions come, and one more.
    pub write_file_atomic-Atomic :
        ((p : Bytes) (t : S.State) → L.file p (S.unlink p t) ≡ none)
        → length bytes + L.patience s < fuel
        → Atomic S L path bytes s (write_file_atomic S fuel path bytes s)
    write_file_atomic-Atomic gone enough =
        let apart = temporary_apart path in
        let mode = mode_for S (S.file_mode path s) in
        elim (course enough) [
          | no_memory failing r ↦ rw r (old_file refl failing refl (inr refl))
          | not_opened o r ↦ rw r (
              old_file refl (λ g. g.opens tmp mode s o) (L.open_new_refused tmp mode path s o)
                (inr (L.open_new_refused tmp mode tmp s o)))
          | not_written fd o failing r ↦
              let t = after_loop fd in
              rw r (
                old_file refl failing
                  (L.unlink-file tmp path (S.close fd t) apart
                    ∙ L.close-file fd path t
                    ∙ loop_kept path fd o apart)
                  (inl (gone tmp (S.close fd t))))
          | written fd o f r ↦
              let t = after_loop fd in
              rw r (move_over-Atomic S L gone path bytes fd s t f (loop_kept path fd o apart))
        ]

    -- No other file changes.
    write_file_atomic-file :
        (q : Bytes)
        → length bytes + L.patience s < fuel
        → q ≢ path
        → q ≢ tmp
        → L.file q (write_file_atomic S fuel path bytes s).1 ≡ L.file q s
    write_file_atomic-file q enough h k = elim (course enough) [
      | no_memory failing r ↦ rw r refl
      | not_opened o r ↦ rw r (L.open_new_refused tmp (mode_for S (S.file_mode path s)) q s o)
      | not_written fd o failing r ↦
          let t = after_loop fd in
          rw r (L.unlink-file tmp q (S.close fd t) k ∙ L.close-file fd q t ∙ loop_kept q fd o k)
      | written fd o f r ↦
          rw r (move_over-file S L path fd (after_loop fd) q h k ∙ loop_kept q fd o k)
    ]
