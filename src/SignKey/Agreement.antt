-- ===== src/SignKey/Agreement.antt =====
-- What `rss_sign_key_load` (src/rss_sign.c) has read or made, and that later loads agree with it.
use raptor_common.Base.{
  ℕ, zero, suc, ◌≤◌, true, [], ◌∷◌, ◌++◌, Option, none, some, length, length-take, take, Bytes, ◌≡◌,
  ◌≢◌, refl, sym, ◌∙◌, ap, arith, Option-cases, Bool-cases, inl, inr,
}
use mathlib.Core.List.{append-nil}
use raptor_common.FileIo.Calls.{System, Answer, interrupted, failed, done}
use raptor_common.FileIo.Contract.{Lawful}
use raptor_common.SignKey.{
  KeyCalls, whole_seed, is_whole, read_urandom, mkdir_parent, store_seed, make_seed, attempt,
  load_seed,
}
use raptor_common.Text.Copying.{take_all}
use raptor_common.SignKey.Random.{
  KeyLaws, exclusive_kind, made, taken, refused, whole_seed_done, read_urandom-length,
  read_urandom-file, mkdir_parent-file,
}

whole_seed_full : (bs : Bytes) → 32 ≤ length bs → whole_seed (done (take 32 bs)) ≡ some (take 32 bs)
whole_seed_full bs h = ground (arith, length-take 32 bs)

some_same : {a b : Bytes} → some a ≡ some b → a ≡ b
some_same e = cc

front_unique : (a b r t : Bytes) → length a ≡ length b → a ++ r ≡ b ++ t → a ≡ b
front_unique [] [] r t h e = refl
front_unique [] (y ∷ b) r t h e = absurd (omega (arith, h))
front_unique (x ∷ a) [] r t h e = absurd (omega (arith, h))
front_unique (x ∷ a) (y ∷ b) r t h e =
    let head : x ≡ y = cc in
    let tail : a ++ r ≡ b ++ t = cc in
    let rest = front_unique a b r t (omega (arith, h)) tail in rw (head, rest) refl

is_whole_done : (n : ℕ) (a : Answer ℕ) → is_whole n a ≡ true → a ≡ done n
is_whole_done n interrupted e = cc
is_whole_done n failed e = cc
is_whole_done n (done k) e = ground (arith, e)

module _ (S : System) (L : Lawful S) (C : KeyCalls S) (K : KeyLaws S L C) (path : Bytes) where
  -- The 32 bytes of a seed stand at the front of the file.
  abbrev pub AtFront : Bytes → S.State → Type 0
  AtFront seed s = (rest : Bytes) × (L.file path s ≡ some (seed ++ rest)) × (length seed ≡ 32)

  abbrev Sound : Option Bytes × S.State → Type 0
  Sound r = (seed : Bytes) → r.0 ≡ some seed → AtFront seed r.1

  store_seed-Sound :
      (fd : ℕ) (seed : Bytes) (s : S.State)
      → L.target fd s ≡ some path
      → L.file path s ≡ some []
      → length seed ≡ 32
      → Sound (store_seed S C path fd seed s)
  unfolding store_seed
  store_seed-Sound fd seed s t f h seed' e =
      let s1 = (S.write fd seed s).1 in
      let s2 = (S.fsync fd s1).1 in
      elim (Bool-cases (is_whole 32 (S.write fd seed s).0)) [
        | inr w ↦ absurd (ground (arith, e, w))
        | inl w ↦ elim (Bool-cases (S.fsync fd s1).0) [
          | inr y ↦ absurd (ground (arith, e, w, y))
          | inl y ↦
              let same : seed ≡ seed' = ground (arith, e, w, y) in
              let (aimed, answered) =
                L.write-WriteAnswer fd seed path [] s (omega (arith, h)) t f in
              let a = is_whole_done 32 (S.write fd seed s).0 w in
              let (grown, fits, none_written, less) = (rw a at answered) in
              let whole : take 32 seed ≡ seed ++ [] =
                take_all 32 seed (omega (arith, h)) ∙ sym (append-nil seed) in
              let there =
                L.close-file fd path s2 ∙ L.fsync-file fd path s1 ∙ grown ∙ ap some whole in
              rw (sym same, w, y, store_seed) ([], there, h)
        ]
      ]

  module _ (short lost : S.State → Option Bytes × S.State)
      (short_Sound : (t : S.State) → Sound (short t))
      (lost_Sound : (t : S.State) → Sound (lost t)) where
    make_seed-Sound : (s : S.State) → Sound (make_seed S C path lost s)
    unfolding make_seed
    make_seed-Sound s seed' e =
        let s1 = mkdir_parent S C path (read_urandom S C s).1 in
        let s2 = (C.open_exclusive path s1).1 in
        elim (Option-cases (read_urandom S C s).0) [
          | inl r ↦ absurd (ground (arith, e, r))
          | inr (seed, r) ↦ elim (exclusive_kind (C.open_exclusive path s1).0) [
            | taken o ↦ rw (r, o, make_seed) (lost_Sound s2 seed' (rw (r, o, make_seed) at e))
            | refused o ↦ absurd (ground (arith, e, r, o))
            | made fd o ↦
                let (missing, empty, aimed) = K.open_exclusive_created path s1 fd o in
                let long = read_urandom-length S L C K seed s r in
                rw (r, o, make_seed)
                  (store_seed-Sound fd seed s2 aimed empty long seed' (rw (r, o, make_seed) at e))
          ]
        ]

    attempt-Sound : (s : S.State) → Sound (attempt S C path short lost s)
    unfolding attempt
    attempt-Sound s seed e =
        let s1 = (S.open_read path s).1 in
        elim (Option-cases (S.open_read path s).0) [
          | inl o ↦ rw (o, attempt) (make_seed-Sound s1 seed (rw (o, attempt) at e))
          | inr (fd, o) ↦
              let (shown, less) = L.open_read-left path s fd o in
              let s2 = (S.read fd 32 s1).1 in
              elim (Option-cases (whole_seed (S.read fd 32 s1).0)) [
                | inl w ↦
                    rw (o, w, attempt) (short_Sound (S.close fd s2) seed (rw (o, w, attempt) at e))
                | inr (bs, w) ↦
                    let same : bs ≡ seed = ground (arith, e, o, w) in
                    let (a, long) = whole_seed_done (S.read fd 32 s1).0 bs w in
                    let answered = L.read-ReadAnswer fd 32 s1 (omega arith) in
                    let (split, fits, ended, less') = (rw a at answered) in
                    let there =
                      L.close-file fd path s2
                      ∙ L.read-file fd 32 path s1
                      ∙ L.open_read-file path path s
                      ∙ shown
                      ∙ ap some split in
                    rw (sym same, o, w, attempt) (L.left fd s2, there, long)
              ]
        ]

  load_seed-Sound : (left : ℕ) (s : S.State) → Sound (load_seed S C left path s)
  unfolding load_seed
  load_seed-Sound zero s =
      attempt-Sound (λ t. (none, t)) (λ t. (none, t)) (λ t seed e. cc) (λ t seed e. cc) s
  load_seed-Sound (suc left) s =
      attempt-Sound (λ t. load_seed S C left path (C.usleep 10000 t))
        (λ t. load_seed S C left path t) (λ t. load_seed-Sound left (C.usleep 10000 t))
        (λ t. load_seed-Sound left t) s

  -- A file that is there stays as it is.
  module _ (bytes : Bytes) where
    abbrev Keeps : (S.State → Option Bytes × S.State) → Type 0
    Keeps f = (t : S.State) → L.file path t ≡ some bytes → L.file path (f t).1 ≡ some bytes

    make_seed-Keeps :
        (lost : S.State → Option Bytes × S.State) → Keeps lost → Keeps (make_seed S C path lost)
    unfolding make_seed
    make_seed-Keeps lost lost_Keeps s there =
        let t = (read_urandom S C s).1 in
        let s1 = mkdir_parent S C path t in
        let s2 = (C.open_exclusive path s1).1 in
        let random = read_urandom-file S L C K path s ∙ there in
        let before = mkdir_parent-file S L C K path path t ∙ random in
        elim (Option-cases (read_urandom S C s).0) [
          | inl r ↦ rw (r, make_seed) random
          | inr (seed, r) ↦ elim (exclusive_kind (C.open_exclusive path s1).0) [
            | made fd o ↦ absurd (ground (arith, before, (K.open_exclusive_created path s1 fd o).0))
            | taken o ↦
                let kept =
                  K.open_exclusive_refused path path s1 (λ fd e. absurd (ground (arith, o, e))) in
                rw (r, o, make_seed) (lost_Keeps s2 (kept ∙ before))
            | refused o ↦
                let kept =
                  K.open_exclusive_refused path path s1 (λ fd e. absurd (ground (arith, o, e))) in
                rw (r, o, make_seed) (kept ∙ before)
          ]
        ]

    attempt-Keeps :
        (short lost : S.State → Option Bytes × S.State)
        → Keeps short
        → Keeps lost
        → Keeps (attempt S C path short lost)
    unfolding attempt
    attempt-Keeps short lost short_Keeps lost_Keeps s there =
        let s1 = (S.open_read path s).1 in
        let opened = L.open_read-file path path s ∙ there in
        elim (Option-cases (S.open_read path s).0) [
          | inl o ↦ rw (o, attempt) (make_seed-Keeps lost lost_Keeps s1 opened)
          | inr (fd, o) ↦
              let s2 = (S.read fd 32 s1).1 in
              let kept = L.close-file fd path s2 ∙ L.read-file fd 32 path s1 ∙ opened in
              elim (Option-cases (whole_seed (S.read fd 32 s1).0)) [
                | inl w ↦ rw (o, w, attempt) (short_Keeps (S.close fd s2) kept)
                | inr (bs, w) ↦ rw (o, w, attempt) kept
              ]
        ]

    load_seed-Keeps : (left : ℕ) → Keeps (load_seed S C left path)
    unfolding load_seed
    load_seed-Keeps zero =
        attempt-Keeps (λ t. (none, t)) (λ t. (none, t)) (λ t there. there) (λ t there. there)
    load_seed-Keeps (suc left) =
        attempt-Keeps (λ t. load_seed S C left path (C.usleep 10000 t))
          (λ t. load_seed S C left path t)
          (λ t there. load_seed-Keeps left (C.usleep 10000 t) (K.usleep-file 10000 path t ∙ there))
          (λ t there. load_seed-Keeps left t there)

  attempt_found :
      (short lost : S.State → Option Bytes × S.State) (bytes : Bytes) (s : S.State)
      → L.file path s ≡ some bytes
      → 32 ≤ length bytes
      → (S.open_read path s).0 ≢ none
      → ((fd : ℕ) (t : S.State) → (S.read fd 32 t).0 ≡ done (take 32 (L.left fd t)))
      → (attempt S C path short lost s).0 ≡ some (take 32 bytes)
  unfolding attempt
  attempt_found short lost bytes s there long opens reads =
      let s1 = (S.open_read path s).1 in
      elim (Option-cases (S.open_read path s).0) [
        | inl o ↦ absurd (opens o)
        | inr (fd, o) ↦
            let same : bytes ≡ L.left fd s1 =
              some_same (sym there ∙ (L.open_read-left path s fd o).0) in
            let full : whole_seed (done (take 32 (L.left fd s1))) ≡ some (take 32 (L.left fd s1)) =
              whole_seed_full (L.left fd s1) (omega (arith, long, ap length same)) in
            rw (o, reads fd s1, full, same, attempt) refl
      ]

  -- A file of 32 bytes or more that opens and gives its first 32 bytes to one read is a seed at once.
  load_seed_found :
      (left : ℕ) (bytes : Bytes) (s : S.State)
      → L.file path s ≡ some bytes
      → 32 ≤ length bytes
      → (S.open_read path s).0 ≢ none
      → ((fd : ℕ) (t : S.State) → (S.read fd 32 t).0 ≡ done (take 32 (L.left fd t)))
      → (load_seed S C left path s).0 ≡ some (take 32 bytes)
  unfolding load_seed
  load_seed_found zero bytes s there long opens reads =
      attempt_found (λ t. (none, t)) (λ t. (none, t)) bytes s there long opens reads
  load_seed_found (suc left) bytes s there long opens reads =
      attempt_found (λ t. load_seed S C left path (C.usleep 10000 t))
        (λ t. load_seed S C left path t) bytes s there long opens reads

  -- Whatever the calls answer, a seed that the loop of rss_sign_key_load ends with has 32 bytes,
  -- which stand at the front of the file then; and a later loop, over the file as this one left it,
  -- that ends with a seed leaves the file alone and ends with the same.
  load_seed_agrees :
      (left left' : ℕ) (a b : Bytes) (s t : S.State)
      → (load_seed S C left path s).0 ≡ some a
      → L.file path t ≡ L.file path (load_seed S C left path s).1
      → (load_seed S C left' path t).0 ≡ some b
      → AtFront a (load_seed S C left path s).1
        × (L.file path (load_seed S C left' path t).1 ≡ L.file path t)
        × (b ≡ a)
  load_seed_agrees left left' a b s t e same e' =
      let (rest, there, long) = load_seed-Sound left s a e in
      let before = same ∙ there in
      let after = load_seed-Keeps (a ++ rest) left' t before in
      let (rest', there', long') = load_seed-Sound left' t b e' in
      (
        (rest, there, long),
        after ∙ sym before,
        front_unique b a rest' rest (long' ∙ sym long) (some_same (sym there' ∙ after)),
      )
