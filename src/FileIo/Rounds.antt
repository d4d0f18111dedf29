-- ===== src/FileIo/Rounds.antt =====
-- One round of the loop of `rss_read_file` (src/rss_util.c), by what the read answers.
use mathlib.Core.List.{append-nil}
use raptor_common.Base.{
  ℕ, suc, ◌+◌, ◌-◌, ◌*◌, ◌^◌, ◌<◌, true, false, not, ◌&&◌, [], ◌∷◌, ◌++◌, leb, if◌then◌else◌,
  length, Bytes, ◌≡◌, refl, ◌⊎◌, inl, inr, arith,
}
use raptor_common.FileIo.Calls.{System, Answer, interrupted, failed, done}
use raptor_common.FileIo.{FileRead, unreadable, out_of_range, contents, read_loop}

pub Answer-cases :
    {A : Type 0} (a : Answer A) → (a ≡ interrupted) ⊎ (a ≡ failed) ⊎ ((x : A) × (a ≡ done x))
Answer-cases interrupted = inl refl
Answer-cases failed = inr (inl refl)
Answer-cases (done x) = inr (inr (x, refl))

-- The buffer that the loop reads into, with a byte to spare for the NUL.
abbrev pub grown : ℕ → Bytes → ℕ
grown capacity buf = if leb (capacity - 1) (length buf) then capacity * 2 else capacity

pub grown_room :
    (capacity : ℕ) (buf : Bytes)
    → 1 < capacity
    → length buf < capacity
    → (0 < grown capacity buf - 1 - length buf)
      × (1 < grown capacity buf)
      × (length buf + (grown capacity buf - 1 - length buf) < grown capacity buf)
grown_room capacity buf h k = ground (arith, h, k)

pub append_end : (buf before : Bytes) → before ≡ [] → buf ≡ buf ++ before
append_end buf before h = rw (h, append-nil buf) refl

module _ (S : System) where
  -- A round that finds room, by what the read answers.
  module _ (fuel fd capacity : ℕ) (buf : Bytes) (s : S.State)
      (small : (leb (capacity - 1) (length buf) && leb (2 ^ 30) capacity) ≡ false)
      (room : (leb (capacity - 1) (length buf) && not (S.alloc (grown capacity buf))) ≡ false) where
    abbrev asked : Answer Bytes × S.State
    asked = S.read fd (grown capacity buf - 1 - length buf) s

    abbrev round : FileRead × S.State
    round = read_loop S (suc fuel) fd capacity buf s

    pub round_interrupted :
        asked.0 ≡ interrupted → round ≡ read_loop S fuel fd (grown capacity buf) buf asked.1
    unfolding read_loop
    round_interrupted e = rw (small, room, e, read_loop) refl

    pub round_failed : asked.0 ≡ failed → round ≡ (unreadable, S.close fd asked.1)
    unfolding read_loop
    round_failed e = rw (small, room, e, read_loop) refl

    pub round_ended : asked.0 ≡ done [] → round ≡ (contents buf, S.close fd asked.1)
    unfolding read_loop
    round_ended e = rw (small, room, e, read_loop) refl

    pub round_more :
        (b : ℕ) (bs : Bytes)
        → asked.0 ≡ done (b ∷ bs)
        → round ≡ read_loop S fuel fd (grown capacity buf) (buf ++ b ∷ bs) asked.1
    unfolding read_loop
    round_more b bs e = rw (small, room, e, read_loop) refl

  pub round_refused :
      (fuel fd capacity : ℕ) (buf : Bytes) (s : S.State)
      → (leb (capacity - 1) (length buf) && leb (2 ^ 30) capacity) ≡ false
      → (leb (capacity - 1) (length buf) && not (S.alloc (grown capacity buf))) ≡ true
      → read_loop S (suc fuel) fd capacity buf s ≡ (unreadable, S.close fd s)
  unfolding read_loop
  round_refused fuel fd capacity buf s small e = rw (small, e, read_loop) refl

  pub round_too_large :
      (fuel fd capacity : ℕ) (buf : Bytes) (s : S.State)
      → (leb (capacity - 1) (length buf) && leb (2 ^ 30) capacity) ≡ true
      → read_loop S (suc fuel) fd capacity buf s ≡ (out_of_range, s)
  unfolding read_loop
  round_too_large fuel fd capacity buf s e = rw (e, read_loop) refl
