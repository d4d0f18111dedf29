-- ===== src/FileIo/Reading.antt =====
-- What `rss_read_file` (src/rss_util.c) returns, and that its loop ends.
use mathlib.Core.List.{append_assoc}
use raptor_common.Base.{
  ℕ, zero, suc, ◌+◌, ◌-◌, ◌^◌, ◌≤◌, ◌<◌, true, false, not, ◌&&◌, [], ◌∷◌, ◌++◌, none, some, leb,
  length, length-append, Bytes, ◌≡◌, ◌≢◌, refl, sym, ◌∙◌, ap, ◌⊎◌, inl, inr, arith, Bool-cases,
  Option-cases,
}
use raptor_common.FileIo.Rounds.{
  Answer-cases, grown, grown_room, append_end, round_interrupted, round_failed, round_ended,
  round_more, round_refused, round_too_large,
}
use raptor_common.FileIo.Contract.{Lawful}
use raptor_common.FileIo.Calls.{System, failed}
use raptor_common.FileIo.{
  FileRead, unreadable, out_of_range, contents, read_loop, read_file, first_capacity,
}

module _ (S : System) (L : Lawful S) where
  -- Memory is there, a file that is there opens, and no call fails but by an interruption.
  pub record NeverFails : Type 0 where
    pub allocates : (n : ℕ) → S.alloc n ≡ true
    pub opens : (p c : Bytes) (s : S.State) → L.file p s ≡ some c → (S.open_read p s).0 ≢ none
    pub measures : (fd : ℕ) (s : S.State) → S.file_size fd s ≢ none
    pub reads : (fd n : ℕ) (s : S.State) → (S.read fd n s).0 ≢ failed

  -- The whole file, or NULL where something failed.
  abbrev pub ReadsWhole : FileRead → Bytes → Type 0
  ReadsWhole r file = (r ≡ contents file) ⊎ ((r ≡ unreadable) × ¬ NeverFails)

  read_loop-ReadsWhole :
      (fuel fd capacity : ℕ) (buf : Bytes) (s : S.State)
      → 1 < capacity
      → length buf < capacity
      → length (L.left fd s) + L.patience s < fuel
      → length buf + length (L.left fd s) + 1 < 2 ^ 30
      → ReadsWhole (read_loop S fuel fd capacity buf s).0 (buf ++ L.left fd s)
  read_loop-ReadsWhole zero fd capacity buf s h k m z = absurd (omega arith)
  read_loop-ReadsWhole (suc fuel) fd capacity buf s h k m z =
      let room = grown capacity buf in
      let n = room - 1 - length buf in
      let s' = (S.read fd n s).1 in
      let (pos, wide, below) = grown_room capacity buf h k in
      let answered = L.read-ReadAnswer fd n s pos in
      let small : (leb (capacity - 1) (length buf) && leb (2 ^ 30) capacity) ≡ false =
        ground (arith, k, z) in
      elim (Bool-cases (leb (capacity - 1) (length buf) && not (S.alloc room))) [
        | inl out_of_memory ↦ inr (
          rw (round_refused S fuel fd capacity buf s small out_of_memory) refl,
          (λ g. absurd (ground (arith, out_of_memory, g.allocates room))),
        )
        | inr allocated ↦ elim (Answer-cases (S.read fd n s).0) [
          | inl e ↦
              let (same, less) = (rw e at answered) in
              rw (round_interrupted S fuel fd capacity buf s small allocated e, sym same)
                (read_loop-ReadsWhole fuel fd room buf s' wide (omega arith)
                  (omega (arith, ap length same, less)) (omega (arith, ap length same, z)))
          | inr (inl e) ↦ inr (
            rw (round_failed S fuel fd capacity buf s small allocated e) refl,
            (λ g. g.reads fd n s e),
          )
          | inr (inr ([], e)) ↦
              let (split, short, ended, less) = (rw e at answered) in
              inl (
                rw (round_ended S fuel fd capacity buf s small allocated e)
                  (ap contents (append_end buf (L.left fd s) (ended refl))))
          | inr (inr (b ∷ bs, e)) ↦
              let (split, short, ended, less) = (rw e at answered) in
              rw
                (
                  round_more S fuel fd capacity buf s small allocated b bs e,
                  split,
                  sym (append_assoc buf (b ∷ bs) (L.left fd s')),
                )
                (read_loop-ReadsWhole fuel fd room (buf ++ b ∷ bs) s' wide
                  (omega (arith, short, below, length-append buf (b ∷ bs)))
                  (omega (arith, less, m, ap length split, length-append (b ∷ bs) (L.left fd s')))
                  (omega (
                    arith,
                    z,
                    length-append buf (b ∷ bs),
                    ap length split,
                    length-append (b ∷ bs) (L.left fd s'),
                  )))
        ]
      ]

  first_capacity_lem : (size : ℕ) → 1 < first_capacity S size
  first_capacity_lem size = ground arith

  -- The ways that `rss_read_file` takes: it gives up in front of its loop, or enters it.
  data Start (fuel : ℕ) (path : Bytes) (s : S.State) : Type 0 where
    not_opened :
        (S.open_read path s).0 ≡ none
        → read_file S fuel path s ≡ (unreadable, (S.open_read path s).1)
        → Start fuel path s
    gave_up :
        (fd : ℕ)
        → ¬ NeverFails
        → read_file S fuel path s ≡ (unreadable, S.close fd (S.open_read path s).1)
        → Start fuel path s
    too_large :
        (fd size : ℕ)
        → (S.open_read path s).0 ≡ some fd
        → S.file_size fd (S.open_read path s).1 ≡ some size
        → 2 ^ 31 - 1 ≤ size
        → read_file S fuel path s ≡ (out_of_range, (S.open_read path s).1)
        → Start fuel path s
    entered :
        (fd size : ℕ)
        → (S.open_read path s).0 ≡ some fd
        → read_file S fuel path s
          ≡ read_loop S fuel fd (first_capacity S size) [] (S.open_read path s).1
        → Start fuel path s

  start : (fuel : ℕ) (path : Bytes) (s : S.State) → Start fuel path s
  unfolding read_file
  start fuel path s = elim (Option-cases (S.open_read path s).0) [
    | inl e ↦ not_opened e (rw (e, read_file) refl)
    | inr (fd, e) ↦ elim (Option-cases (S.file_size fd (S.open_read path s).1)) [
      | inl no_size ↦
          gave_up fd (λ g. g.measures fd (S.open_read path s).1 no_size)
            (rw (e, no_size, read_file) refl)
      | inr (size, sized) ↦ elim (Bool-cases (leb (2 ^ 31 - 1) size)) [
        | inl large ↦
            too_large fd size e sized (ground (arith, large)) (rw (e, sized, large, read_file) refl)
        | inr small ↦ elim (Bool-cases (S.alloc (first_capacity S size))) [
          | inl given ↦ entered fd size e (rw (e, sized, small, given, read_file) refl)
          | inr not_given ↦
              gave_up fd
                (λ g. absurd (ground (arith, not_given, g.allocates (first_capacity S size))))
                (rw (e, sized, small, not_given, read_file) refl)
        ]
      ]
    ]
  ]

  -- fstat reports a size that fits an int with a byte to spare.
  abbrev pub SizeFits : Bytes → S.State → Type 0
  SizeFits path s =
      (fd size : ℕ) → S.file_size fd (S.open_read path s).1 ≡ some size → size < 2 ^ 31 - 1

  -- A file that is there, of less than 2^30 - 1 bytes and with a size below 2^31 - 1 from fstat, is
  -- read whole, whatever that size, the chunks and the interruptions, unless an allocation, an open,
  -- an fstat or a read fails, and then the result is NULL; no int overflows. The loop makes at most
  -- as many rounds as the file has bytes and interruptions come, and one more.
  pub read_file-ReadsWhole :
      (fuel : ℕ) (path bytes : Bytes) (s : S.State)
      → L.file path s ≡ some bytes
      → length bytes + 1 < 2 ^ 30
      → SizeFits path s
      → length bytes + L.patience s < fuel
      → ReadsWhole (read_file S fuel path s).0 bytes
  read_file-ReadsWhole fuel path bytes s there short fits enough = elim (start fuel path s) [
    | not_opened e r ↦ inr (rw r refl, (λ g. g.opens path bytes s there e))
    | gave_up fd failing r ↦ inr (rw r refl, failing)
    | too_large fd size e sized large r ↦ absurd (omega (arith, large, fits fd size sized))
    | entered fd size e r ↦
        let s' = (S.open_read path s).1 in
        let (shown, less) = L.open_read-left path s fd e in
        let same : bytes ≡ L.left fd s' = ground (arith, there, shown) in
        rw (r, same)
          (read_loop-ReadsWhole fuel fd (first_capacity S size) [] s' (first_capacity_lem size)
            (omega (arith, first_capacity_lem size)) (omega (arith, enough, less, ap length same))
            (omega (arith, short, ap length same)))
  ]

  read_loop-file :
      (fuel fd capacity : ℕ) (buf q : Bytes) (s : S.State)
      → L.file q (read_loop S fuel fd capacity buf s).1 ≡ L.file q s
  read_loop-file zero fd capacity buf q s = unfold read_loop in refl
  read_loop-file (suc fuel) fd capacity buf q s =
      let room = grown capacity buf in
      let s' = (S.read fd (room - 1 - length buf) s).1 in
      let kept = L.read-file fd (room - 1 - length buf) q s in
      elim (Bool-cases (leb (capacity - 1) (length buf) && leb (2 ^ 30) capacity)) [
        | inl large ↦ rw (round_too_large S fuel fd capacity buf s large) refl
        | inr small ↦ elim (Bool-cases (leb (capacity - 1) (length buf) && not (S.alloc room))) [
          | inl out_of_memory ↦
              rw (round_refused S fuel fd capacity buf s small out_of_memory) (L.close-file fd q s)
          | inr allocated ↦ elim (Answer-cases (S.read fd (room - 1 - length buf) s).0) [
            | inl e ↦
                rw (round_interrupted S fuel fd capacity buf s small allocated e)
                  (read_loop-file fuel fd room buf q s' ∙ kept)
            | inr (inl e) ↦
                rw (round_failed S fuel fd capacity buf s small allocated e)
                  (L.close-file fd q s' ∙ kept)
            | inr (inr ([], e)) ↦
                rw (round_ended S fuel fd capacity buf s small allocated e)
                  (L.close-file fd q s' ∙ kept)
            | inr (inr (b ∷ bs, e)) ↦
                rw (round_more S fuel fd capacity buf s small allocated b bs e)
                  (read_loop-file fuel fd room (buf ++ b ∷ bs) q s' ∙ kept)
          ]
        ]
      ]

  -- Reading changes no file.
  pub read_file-file :
      (fuel : ℕ) (path q : Bytes) (s : S.State) → L.file q (read_file S fuel path s).1 ≡ L.file q s
  read_file-file fuel path q s =
      let kept = L.open_read-file path q s in
      let s' = (S.open_read path s).1 in
      elim (start fuel path s) [
        | not_opened e r ↦ rw r kept
        | gave_up fd failing r ↦ rw r (L.close-file fd q s' ∙ kept)
        | too_large fd size e sized large r ↦ rw r kept
        | entered fd size e r ↦ rw r (read_loop-file fuel fd (first_capacity S size) [] q s' ∙ kept)
      ]

  -- A file that is missing is NULL.
  pub read_file_missing :
      (fuel : ℕ) (path : Bytes) (s : S.State)
      → L.file path s ≡ none
      → (read_file S fuel path s).0 ≡ unreadable
  read_file_missing fuel path s missing = elim (start fuel path s) [
    | not_opened e r ↦ rw r refl
    | gave_up fd failing r ↦ rw r refl
    | too_large fd size e sized large r ↦
        absurd (ground (arith, missing, (L.open_read-left path s fd e).0))
    | entered fd size e r ↦ absurd (ground (arith, missing, (L.open_read-left path s fd e).0))
  ]
