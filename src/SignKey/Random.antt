-- ===== src/SignKey/Random.antt =====
-- The random bytes and the directory of a new key (src/rss_sign.c).
use raptor_common.Base.{
  ℕ, zero, suc, ◌+◌, ◌-◌, ◌≤◌, ◌<◌, [], ◌∷◌, ◌++◌, none, some, ltb, length, length-append, codes,
  Bytes, ◌≡◌, ◌≢◌, refl, ◌∙◌, arith, Option-cases, Bool-cases, inl, inr,
}
use raptor_common.FileIo.Calls.{System, Answer, interrupted, failed, done}
use raptor_common.FileIo.Contract.{Lawful}
use raptor_common.FileIo.Rounds.{Answer-cases}
use raptor_common.FileIo.{before_slash}
use raptor_common.SignKey.{
  KeyCalls, Exclusive, created, there_already, not_created, whole_seed, urandom_loop, read_urandom,
  mkdir_parent,
}
use raptor_common.Text.{strlcpy}

-- What the calls document.
pub record KeyLaws (S : System) (L : Lawful S) (C : KeyCalls S) : Type 0 where
  pub open_exclusive_created :
      (p : Bytes) (s : S.State) (fd : ℕ)
      → let s' = (C.open_exclusive p s).1 in
        (C.open_exclusive p s).0 ≡ created fd
        → (L.file p s ≡ none) × (L.file p s' ≡ some []) × (L.target fd s' ≡ some p)
  pub open_exclusive_refused :
      (p q : Bytes) (s : S.State)
      → ((fd : ℕ) → (C.open_exclusive p s).0 ≢ created fd)
      → L.file q (C.open_exclusive p s).1 ≡ L.file q s
  pub mkdir-file : (p q : Bytes) (s : S.State) → L.file q (C.mkdir p s) ≡ L.file q s
  pub usleep-file : (n : ℕ) (q : Bytes) (s : S.State) → L.file q (C.usleep n s) ≡ L.file q s

pub data ExclusiveKind (e : Exclusive) : Type 0 where
  made : (fd : ℕ) → e ≡ created fd → ExclusiveKind e
  taken : e ≡ there_already → ExclusiveKind e
  refused : e ≡ not_created → ExclusiveKind e

pub exclusive_kind : (e : Exclusive) → ExclusiveKind e
exclusive_kind (created fd) = made fd refl
exclusive_kind there_already = taken refl
exclusive_kind not_created = refused refl

pub whole_seed_done :
    (a : Answer Bytes) (seed : Bytes)
    → whole_seed a ≡ some seed
    → (a ≡ done seed) × (length seed ≡ 32)
whole_seed_done interrupted seed e = cc
whole_seed_done failed seed e = cc
whole_seed_done (done bs) seed e = ground (arith, e)

module _ (S : System) (L : Lawful S) (C : KeyCalls S) (K : KeyLaws S L C) where
  urandom_loop-length :
      (fuel fd : ℕ) (got seed : Bytes) (s : S.State)
      → length got ≤ 32
      → 32 ≤ length got + fuel
      → (urandom_loop S C fuel fd got s).0 ≡ some seed
      → length seed ≡ 32
  unfolding urandom_loop
  urandom_loop-length zero fd got seed s h k e = ground (arith, e, h, k)
  urandom_loop-length (suc fuel) fd got seed s h k e =
      let s' = (S.read fd (32 - length got) s).1 in
      elim (Bool-cases (ltb (length got) 32)) [
        | inr full ↦ ground (arith, e, full, h)
        | inl room ↦ elim (Answer-cases (S.read fd (32 - length got) s).0) [
          | inl a ↦ absurd (ground (arith, e, room, a))
          | inr (inl a) ↦ absurd (ground (arith, e, room, a))
          | inr (inr ([], a)) ↦ absurd (ground (arith, e, room, a))
          | inr (inr (b ∷ bs, a)) ↦
              let some_room : 0 < 32 - length got = ground (arith, room) in
              let answered = L.read-ReadAnswer fd (32 - length got) s some_room in
              let (split, short, ended, less) = (rw a at answered) in
              let longer = length-append got (b ∷ bs) in
              urandom_loop-length fuel fd (got ++ b ∷ bs) seed s' (omega (arith, h, short, longer))
                (omega (arith, k, longer)) (rw (room, a, urandom_loop) at e)
        ]
      ]

  urandom_loop-file :
      (fuel fd : ℕ) (got q : Bytes) (s : S.State)
      → L.file q (urandom_loop S C fuel fd got s).1 ≡ L.file q s
  unfolding urandom_loop
  urandom_loop-file zero fd got q s = L.close-file fd q s
  urandom_loop-file (suc fuel) fd got q s =
      let s' = (S.read fd (32 - length got) s).1 in
      let kept = L.read-file fd (32 - length got) q s in
      elim (Bool-cases (ltb (length got) 32)) [
        | inr full ↦ rw (full, urandom_loop) (L.close-file fd q s)
        | inl room ↦ elim (Answer-cases (S.read fd (32 - length got) s).0) [
          | inl a ↦ rw (room, a, urandom_loop) (L.close-file fd q s' ∙ kept)
          | inr (inl a) ↦ rw (room, a, urandom_loop) (L.close-file fd q s' ∙ kept)
          | inr (inr ([], a)) ↦ rw (room, a, urandom_loop) (L.close-file fd q s' ∙ kept)
          | inr (inr (b ∷ bs, a)) ↦
              rw (room, a, urandom_loop) (urandom_loop-file fuel fd (got ++ b ∷ bs) q s' ∙ kept)
        ]
      ]

  pub read_urandom-length :
      (seed : Bytes) (s : S.State) → (read_urandom S C s).0 ≡ some seed → length seed ≡ 32
  unfolding read_urandom
  read_urandom-length seed s e = elim (Option-cases (S.open_read (codes "/dev/urandom") s).0) [
    | inl o ↦ absurd (ground (arith, e, o))
    | inr (fd, o) ↦
        urandom_loop-length 32 fd [] seed (S.open_read (codes "/dev/urandom") s).1 (omega arith)
          (omega arith) (rw (o, read_urandom) at e)
  ]

  pub read_urandom-file : (q : Bytes) (s : S.State) → L.file q (read_urandom S C s).1 ≡ L.file q s
  unfolding read_urandom
  read_urandom-file q s =
      let kept = L.open_read-file (codes "/dev/urandom") q s in
      elim (Option-cases (S.open_read (codes "/dev/urandom") s).0) [
        | inl o ↦ rw (o, read_urandom) kept
        | inr (fd, o) ↦
            rw (o, read_urandom)
              (urandom_loop-file 32 fd [] q (S.open_read (codes "/dev/urandom") s).1 ∙ kept)
      ]

  pub mkdir_parent-file :
      (path q : Bytes) (s : S.State) → L.file q (mkdir_parent S C path s) ≡ L.file q s
  unfolding mkdir_parent
  mkdir_parent-file path q s = elim (Option-cases (before_slash (strlcpy [] (some path) 256).0)) [
    | inl e ↦ rw (e, mkdir_parent) refl
    | inr ([], e) ↦ rw (e, mkdir_parent) refl
    | inr (c ∷ dir, e) ↦ rw (e, mkdir_parent) (K.mkdir-file (c ∷ dir) q s)
  ]
