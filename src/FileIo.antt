-- ===== src/FileIo.antt =====
-- `rss_read_file` and `rss_write_file_atomic` of src/rss_util.c, over the system calls that they
-- make. Where an int of the reader would overflow, the model stops; the sizes that are
-- written are below 2^31.
pub mod Calls
pub mod Contract
pub mod Rounds
pub mod Reading
pub mod Writing
pub mod Moving
pub mod Atomic
use raptor_common.Base.{
  ℕ, zero, suc, ◌+◌, ◌-◌, ◌*◌, ◌%◌, ◌^◌, Bool, true, false, not, ◌&&◌, List, [], ◌∷◌, ◌++◌, Option,
  none, some, leb, ltb, ◌==◌, if◌then◌else◌, length, drop, codes, Bytes,
}
use raptor_common.FileIo.Calls.{System, interrupted, failed, done}

-- NULL, or the bytes and in `out_size` their number; `unfinished` is a loop that goes on, and
-- `out_of_range` an int that would overflow.
pub data FileRead : Type 0 where
  unfinished unreadable out_of_range : FileRead
  contents : Bytes → FileRead

-- -1 and 0; `unwritten` is a loop that goes on.
pub data FileWritten : Type 0 where
  unwritten refused replaced : FileWritten

-- The bytes in front of the last `/`, as `strrchr` finds it.
unfoldable pub before_slash : Bytes → Option Bytes
before_slash [] = none
before_slash (c ∷ s) = elim (before_slash s) [
  | some front ↦ some (c ∷ front)
  | none ↦ if c == b'/' then some [] else none
]

abbrev pub temporary : Bytes → Bytes
temporary path = path ++ codes ".tmp"

module _ (S : System) where
  -- The loop of `rss_read_file` behind `buf`, whose length is `total`. The int `capacity` is not
  -- doubled beyond its range.
  unfoldable pub read_loop : ℕ → ℕ → ℕ → Bytes → S.State → FileRead × S.State
  read_loop zero fd capacity buf s = (unfinished, s)
  read_loop (suc fuel) fd capacity buf s =
      let full = leb (capacity - 1) (length buf) in
      let room = if full then capacity * 2 else capacity in
      let (answer, s') = S.read fd (room - 1 - length buf) s in
      elim (full && leb (2 ^ 30) capacity) [
        | true ↦ (out_of_range, s)
        | false ↦ elim (full && not (S.alloc room)) [
          | true ↦ (unreadable, S.close fd s)
          | false ↦ elim answer [
            | interrupted ↦ read_loop fuel fd room buf s'
            | failed ↦ (unreadable, S.close fd s')
            | done [] ↦ (contents buf, S.close fd s')
            | done (b ∷ bs) ↦ read_loop fuel fd room (buf ++ b ∷ bs) s'
          ]
        ]
      ]

  -- For a size below 2^31 - 1, so that the cast and the sum stay in an int.
  abbrev pub first_capacity : ℕ → ℕ
  first_capacity size = if ltb 0 size then size + 1 else 4096

  unfoldable pub read_file : ℕ → Bytes → S.State → FileRead × S.State
  unfolding read_loop
  read_file fuel path s =
      let (opened, s') = S.open_read path s in
      elim opened [
        | none ↦ (unreadable, s')
        | some fd ↦ elim (S.file_size fd s') [
          | none ↦ (unreadable, S.close fd s')
          | some size ↦
              if leb (2 ^ 31 - 1) size
              then (out_of_range, s')
              else if S.alloc (first_capacity size)
              then read_loop fuel fd (first_capacity size) [] s'
              else (unreadable, S.close fd s')
        ]
      ]

  -- The loop of `rss_write_file_atomic` over the bytes that remain.
  unfoldable pub write_loop : ℕ → ℕ → Bytes → S.State → FileWritten × S.State
  write_loop fuel fd [] s = (replaced, s)
  write_loop zero fd (b ∷ bs) s = (unwritten, s)
  write_loop (suc fuel) fd (b ∷ bs) s =
      let (answer, s') = S.write fd (b ∷ bs) s in
      elim answer [
        | interrupted ↦ write_loop fuel fd (b ∷ bs) s'
        | failed ↦ (refused, s')
        | done n ↦ write_loop fuel fd (drop n (b ∷ bs)) s'
      ]

  -- The directory entry is synced where the path has a directory that opens.
  unfoldable pub sync_parent : Bytes → S.State → S.State
  unfolding before_slash
  sync_parent path s = elim (if S.alloc (length path + 1) then before_slash path else none) [
    | none ↦ s
    | some dir ↦
        let (opened, s') = S.open_read dir s in
        elim opened [ none ↦ s' | some fd ↦ S.close fd (S.fsync fd s').1 ]
  ]

  -- What follows the loop: fsync, close, rename.
  unfoldable pub move_over : Bytes → ℕ → S.State → FileWritten × S.State
  unfolding sync_parent
  move_over path fd s =
      let (synced, s1) = S.fsync fd s in
      let (moved, s2) = S.rename (temporary path) path (S.close fd s1) in
      if synced
      then (if moved
          then (replaced, sync_parent path s2)
          else (refused, S.unlink (temporary path) s2))
      else (refused, S.unlink (temporary path) (S.close fd s1))

  -- `st_mode & 07777` of the file that is there, or 0644.
  abbrev pub mode_for : Option ℕ → ℕ
  mode_for none = 420
  mode_for (some mode) = mode % 2 ^ 12

  unfoldable pub write_file_atomic : ℕ → Bytes → Bytes → S.State → FileWritten × S.State
  unfolding write_loop move_over
  write_file_atomic fuel path bytes s =
      let (opened, s1) = S.open_new (temporary path) (mode_for (S.file_mode path s)) s in
      elim (S.alloc (length path + 5)) [
        | false ↦ (refused, s)
        | true ↦ elim opened [
          | none ↦ (refused, s1)
          | some fd ↦
              let (result, s2) = write_loop fuel fd bytes s1 in
              elim result [
                | unwritten ↦ (unwritten, s2)
                | refused ↦ (refused, S.unlink (temporary path) (S.close fd s2))
                | replaced ↦ move_over path fd s2
              ]
        ]
      ]
