-- ===== src/FileIo/Moving.antt =====
-- The end of `rss_write_file_atomic` (src/rss_util.c): sync, rename, and the directory's sync.
use raptor_common.Base.{
  ℕ, ◌+◌, Bool, true, false, none, some, codes, length, length-append, Bytes, ◌≡◌, ◌≢◌, refl, sym,
  ◌∙◌, ap, ◌⊎◌, inl, inr, arith, Bool-cases, Option-cases,
}
use raptor_common.FileIo.Calls.{System}
use raptor_common.FileIo.Contract.{Lawful}
use raptor_common.FileIo.Writing.{NeverRefuses}
use raptor_common.FileIo.{
  FileWritten, refused, replaced, before_slash, temporary, sync_parent, move_over,
}

pub temporary_apart : (path : Bytes) → path ≢ temporary path
temporary_apart path e = absurd (omega (arith, ap length e, length-append path (codes ".tmp")))

module _ (S : System) (L : Lawful S) where
  -- The file is the new one, or it is the old one, and no temporary file is left that was not there.
  pub data Atomic (path bytes : Bytes) (s : S.State) (r : FileWritten × S.State) : Type 0 where
    new_file :
        r.0 ≡ replaced
        → L.file path r.1 ≡ some bytes
        → L.file (temporary path) r.1 ≡ none
        → Atomic path bytes s r
    old_file :
        r.0 ≡ refused
        → ¬ NeverRefuses S L
        → L.file path r.1 ≡ L.file path s
        → (L.file (temporary path) r.1 ≡ none)
          ⊎ (L.file (temporary path) r.1 ≡ L.file (temporary path) s)
        → Atomic path bytes s r

  pub sync_parent-file :
      (path q : Bytes) (s : S.State) → L.file q (sync_parent S path s) ≡ L.file q s
  unfolding sync_parent
  sync_parent-file path q s = elim (Bool-cases (S.alloc (length path + 1))) [
    | inl e ↦ elim (Option-cases (before_slash path)) [
      | inl d ↦ rw (e, d, sync_parent) refl
      | inr (dir, d) ↦
          let s' = (S.open_read dir s).1 in
          elim (Option-cases (S.open_read dir s).0) [
            | inl o ↦ rw (e, d, o, sync_parent) (L.open_read-file dir q s)
            | inr (fd, o) ↦
                rw (e, d, o, sync_parent)
                  (L.close-file fd q (S.fsync fd s').1
                    ∙ L.fsync-file fd q s'
                    ∙ L.open_read-file dir q s)
          ]
    ]
    | inr e ↦ rw (e, sync_parent) refl
  ]

  module _ (path : Bytes) (fd : ℕ) (t : S.State) where
    abbrev closed : S.State
    closed = S.close fd (S.fsync fd t).1

    abbrev renamed : Bool × S.State
    renamed = S.rename (temporary path) path closed

    move_done :
        (S.fsync fd t).0 ≡ true
        → renamed.0 ≡ true
        → move_over S path fd t ≡ (replaced, sync_parent S path renamed.1)
    unfolding move_over
    move_done a b = rw (a, b, move_over) refl

    move_not_renamed :
        (S.fsync fd t).0 ≡ true
        → renamed.0 ≡ false
        → move_over S path fd t ≡ (refused, S.unlink (temporary path) renamed.1)
    unfolding move_over
    move_not_renamed a b = rw (a, b, move_over) refl

    move_not_synced :
        (S.fsync fd t).0 ≡ false
        → move_over S path fd t ≡ (refused, S.unlink (temporary path) closed)
    unfolding move_over
    move_not_synced a = rw (a, move_over) refl

    closed-file : (q : Bytes) → L.file q closed ≡ L.file q t
    closed-file q = L.close-file fd q (S.fsync fd t).1 ∙ L.fsync-file fd q t

    pub move_over-file :
        (q : Bytes)
        → q ≢ path
        → q ≢ temporary path
        → L.file q (move_over S path fd t).1 ≡ L.file q t
    move_over-file q h k =
        let moved = L.rename-file (temporary path) path q closed k h ∙ closed-file q in
        elim (Bool-cases (S.fsync fd t).0) [
          | inl a ↦ elim (Bool-cases renamed.0) [
            | inl b ↦ rw (move_done a b) (sync_parent-file path q renamed.1 ∙ moved)
            | inr b ↦
                rw (move_not_renamed a b) (L.unlink-file (temporary path) q renamed.1 k ∙ moved)
          ]
          | inr a ↦
              rw (move_not_synced a) (L.unlink-file (temporary path) q closed k ∙ closed-file q)
        ]

  module _ (gone : (p : Bytes) (s : S.State) → L.file p (S.unlink p s) ≡ none) where
    pub move_over-Atomic :
        (path bytes : Bytes) (fd : ℕ) (s t : S.State)
        → L.file (temporary path) t ≡ some bytes
        → L.file path t ≡ L.file path s
        → Atomic path bytes s (move_over S path fd t)
    move_over-Atomic path bytes fd s t filled kept =
        let tmp = temporary path in
        let s2 = closed path fd t in
        let r = renamed path fd t in
        let apart = temporary_apart path in
        elim (Bool-cases (S.fsync fd t).0) [
          | inl a ↦ elim (Bool-cases (S.rename tmp path s2).0) [
            | inl b ↦
                let (moved, away) = L.rename_moved tmp path s2 b (λ e. apart (sym e)) in
                rw (move_done path fd t a b) (
                  new_file refl
                    (sync_parent-file path path r.1 ∙ moved ∙ closed-file path fd t tmp ∙ filled)
                    (sync_parent-file path tmp r.1 ∙ away))
            | inr b ↦ rw (move_not_renamed path fd t a b) (
                old_file refl (λ g. absurd (ground (arith, b, g.renames tmp path s2)))
                  (L.unlink-file tmp path r.1 apart
                    ∙ L.rename_refused tmp path path s2 b
                    ∙ closed-file path fd t path
                    ∙ kept)
                  (inl (gone tmp r.1)))
          ]
          | inr a ↦ rw (move_not_synced path fd t a) (
              old_file refl (λ g. absurd (ground (arith, a, g.syncs fd t)))
                (L.unlink-file tmp path s2 apart ∙ closed-file path fd t path ∙ kept)
                (inl (gone tmp s2)))
        ]
