-- ===== src/FileIo/Writing.antt =====
-- The write loop of `rss_write_file_atomic` (src/rss_util.c).
use mathlib.Core.List.{append_assoc, append-nil}
use raptor_common.Base.{
  ℕ, zero, suc, ◌+◌, ◌<◌, [], ◌∷◌, ◌++◌, some, none, true, length, length-drop, take, drop,
  take-append-drop, Bytes, ◌≡◌, ◌≢◌, refl, sym, ◌∙◌, ap, inl, inr, arith,
}
use raptor_common.FileIo.Contract.{Lawful}
use raptor_common.FileIo.Calls.{System, Answer, interrupted, failed, done}
use raptor_common.FileIo.Rounds.{Answer-cases}
use raptor_common.FileIo.{FileWritten, refused, replaced, write_loop}

module _ (S : System) (L : Lawful S) where
  -- Memory is there, and no call fails but by an interruption.
  pub record NeverRefuses : Type 0 where
    pub allocates : (n : ℕ) → S.alloc n ≡ true
    pub opens : (p : Bytes) (mode : ℕ) (s : S.State) → (S.open_new p mode s).0 ≢ none
    pub writes : (fd : ℕ) (bs : Bytes) (s : S.State) → (S.write fd bs s).0 ≢ failed
    pub syncs : (fd : ℕ) (s : S.State) → (S.fsync fd s).0 ≡ true
    pub renames : (a b : Bytes) (s : S.State) → (S.rename a b s).0 ≡ true

  -- Either the file has all the bytes behind those it had, or the loop gave up.
  pub data Wrote (fd : ℕ) (path whole : Bytes) (r : FileWritten × S.State) : Type 0 where
    all_there : r.0 ≡ replaced → L.file path r.1 ≡ some whole → Wrote fd path whole r
    given_up : r.0 ≡ refused → ¬ NeverRefuses → Wrote fd path whole r

  module _ (fuel fd b : ℕ) (bs : Bytes) (s : S.State) where
    abbrev answer : Answer ℕ × S.State
    answer = S.write fd (b ∷ bs) s

    round_interrupted :
        answer.0 ≡ interrupted
        → write_loop S (suc fuel) fd (b ∷ bs) s ≡ write_loop S fuel fd (b ∷ bs) answer.1
    unfolding write_loop
    round_interrupted e = rw (e, write_loop) refl

    round_failed : answer.0 ≡ failed → write_loop S (suc fuel) fd (b ∷ bs) s ≡ (refused, answer.1)
    unfolding write_loop
    round_failed e = rw (e, write_loop) refl

    round_done :
        (n : ℕ)
        → answer.0 ≡ done n
        → write_loop S (suc fuel) fd (b ∷ bs) s ≡ write_loop S fuel fd (drop n (b ∷ bs)) answer.1
    unfolding write_loop
    round_done n e = rw (e, write_loop) refl

  pub write_loop-Wrote :
      (fuel fd : ℕ) (path old bytes : Bytes) (s : S.State)
      → L.target fd s ≡ some path
      → L.file path s ≡ some old
      → length bytes + L.patience s < fuel
      → Wrote fd path (old ++ bytes) (write_loop S fuel fd bytes s)
  write_loop-Wrote fuel fd path old [] s t f m =
      unfold write_loop in all_there refl (rw (append-nil old) f)
  write_loop-Wrote zero fd path old (b ∷ bs) s t f m = absurd (omega arith)
  write_loop-Wrote (suc fuel) fd path old (b ∷ bs) s t f m =
      let s' = (S.write fd (b ∷ bs) s).1 in
      let (t', answered) = L.write-WriteAnswer fd (b ∷ bs) path old s (omega arith) t f in
      elim (Answer-cases (S.write fd (b ∷ bs) s).0) [
        | inl e ↦
            let (same, less) = (rw e at answered) in
            rw (round_interrupted fuel fd b bs s e)
              (write_loop-Wrote fuel fd path old (b ∷ bs) s' t' same (omega (arith, m, less)))
        | inr (inl e) ↦
            rw (round_failed fuel fd b bs s e) (given_up refl (λ g. g.writes fd (b ∷ bs) s e))
        | inr (inr (n, e)) ↦
            let (grown, fits, none_written, less) = (rw e at answered) in
            let rest = drop n (b ∷ bs) in
            let whole : (old ++ take n (b ∷ bs)) ++ rest ≡ old ++ b ∷ bs =
              append_assoc old (take n (b ∷ bs)) rest
              ∙ ap (λ x. old ++ x) (take-append-drop n (b ∷ bs)) in
            rw (round_done fuel fd b bs s n e, sym whole)
              (write_loop-Wrote fuel fd path (old ++ take n (b ∷ bs)) rest s' t' grown
                (ground (arith, length-drop n (b ∷ bs), fits, none_written, less, m)))
      ]

  pub write_loop-file :
      (fuel fd : ℕ) (path old bytes q : Bytes) (s : S.State)
      → L.target fd s ≡ some path
      → L.file path s ≡ some old
      → q ≢ path
      → L.file q (write_loop S fuel fd bytes s).1 ≡ L.file q s
  write_loop-file fuel fd path old [] q s t f h = unfold write_loop in refl
  write_loop-file zero fd path old (b ∷ bs) q s t f h = unfold write_loop in refl
  write_loop-file (suc fuel) fd path old (b ∷ bs) q s t f h =
      let s' = (S.write fd (b ∷ bs) s).1 in
      let kept = L.write-file fd (b ∷ bs) path q s t h in
      let (t', answered) = L.write-WriteAnswer fd (b ∷ bs) path old s (omega arith) t f in
      elim (Answer-cases (S.write fd (b ∷ bs) s).0) [
        | inl e ↦
            let (same, less) = (rw e at answered) in
            rw (round_interrupted fuel fd b bs s e)
              (write_loop-file fuel fd path old (b ∷ bs) q s' t' same h ∙ kept)
        | inr (inl e) ↦ rw (round_failed fuel fd b bs s e) kept
        | inr (inr (n, e)) ↦
            let (grown, fits, none_written, less) = (rw e at answered) in
            rw (round_done fuel fd b bs s n e) (
              write_loop-file fuel fd path (old ++ take n (b ∷ bs)) (drop n (b ∷ bs)) q s' t' grown
                h
              ∙ kept)
      ]
