-- ===== src/Files/Directories.antt =====
-- What a successful `rss_mkdir_p` (src/rss_util.c) leaves in the file system.
use raptor_common.Base.{
  ℕ, Bool, true, [], ◌∷◌, ◌++◌, ◌==◌, Bytes, ◌≡◌, refl, ap, sym, ◌∙◌, arith, Bool-cases, inl, inr,
}
use mathlib.Core.List.{append_assoc, append-nil}
use raptor_common.Files.{mkdir_walk, mkdir_p}

module _ {F : Type 0} (mkdir : Bytes → F → Bool × F) (is_there : Bytes → F → Bool)
    (made : (d : Bytes) (f : F) → (mkdir d f).0 ≡ true → is_there d (mkdir d f).1 ≡ true)
    (kept : (d e : Bytes) (f : F) → is_there e f ≡ true → is_there e (mkdir d f).1 ≡ true) where
  walk_keeps :
      (front rest e : Bytes) (f : F)
      → is_there e f ≡ true
      → is_there e (mkdir_walk mkdir front rest f).1 ≡ true
  unfolding mkdir_walk
  walk_keeps front [] e f h = kept front e f h
  walk_keeps front (c ∷ rest) e f h = elim (Bool-cases (c == b'/')) [
    | inl slash ↦ elim (Bool-cases ((mkdir front f).0)) [
      | inl ok ↦
          rw (slash, ok) (walk_keeps (front ++ c ∷ []) rest e (mkdir front f).1 (kept front e f h))
      | inr failed ↦ rw (slash, failed) (kept front e f h)
    ]
    | inr other ↦ rw other (walk_keeps (front ++ c ∷ []) rest e f h)
  ]

  -- A successful round goes on with the next byte.
  walk_on :
      (front : Bytes) (c : ℕ) (rest : Bytes) (f : F)
      → (mkdir_walk mkdir front (c ∷ rest) f).0 ≡ true
      → (f' : F) × (mkdir_walk mkdir front (c ∷ rest) f
          ≡ mkdir_walk mkdir (front ++ c ∷ []) rest f')
  walk_on front c rest f h = elim (Bool-cases (c == b'/')) [
    | inl slash ↦ elim (Bool-cases ((mkdir front f).0)) [
      | inl ok ↦ ((mkdir front f).1, unfold mkdir_walk in rw (slash, ok) refl)
      | inr failed ↦
          let stopped : mkdir_walk mkdir front (c ∷ rest) f ≡ mkdir front f =
            unfold mkdir_walk in rw (slash, failed) refl in
          absurd (ground (arith, stopped, failed))
    ]
    | inr other ↦ (f, unfold mkdir_walk in rw other refl)
  ]

  -- What a successful walk leaves: the whole path, and each directory in front of a slash of it.
  walk_whole :
      (front rest : Bytes) (f : F)
      → (mkdir_walk mkdir front rest f).0 ≡ true
      → is_there (front ++ rest) (mkdir_walk mkdir front rest f).1 ≡ true
  walk_whole front [] f h =
      unfold mkdir_walk in
      ap (λ p. is_there p (mkdir front f).1) (append-nil front) ∙ made front f h
  walk_whole front (c ∷ rest) f h =
      let (f', e) = walk_on front c rest f h in
      let next = walk_whole (front ++ c ∷ []) rest f' (rw e at h) in
      rw (e, sym (append_assoc front (c ∷ []) rest)) next

  walk_parent :
      (front a b : Bytes) (f : F)
      → (mkdir_walk mkdir front (a ++ b'/' ∷ b) f).0 ≡ true
      → is_there (front ++ a) (mkdir_walk mkdir front (a ++ b'/' ∷ b) f).1 ≡ true
  walk_parent front [] b f h = elim (Bool-cases ((mkdir front f).0)) [
    | inl ok ↦
        unfold mkdir_walk in
        rw (ok, append-nil front)
          (walk_keeps (front ++ b'/' ∷ []) b front (mkdir front f).1 (made front f ok))
    | inr failed ↦
        let stopped : mkdir_walk mkdir front (b'/' ∷ b) f ≡ mkdir front f =
          unfold mkdir_walk in rw failed refl in
        absurd (ground (arith, stopped, failed))
  ]
  walk_parent front (c ∷ a) b f h =
      let (f', e) = walk_on front c (a ++ b'/' ∷ b) f h in
      let next = walk_parent (front ++ c ∷ []) a b f' (rw e at h) in
      rw (e, sym (append_assoc front (c ∷ []) a)) next

  -- If mkdir leaves the path there when it makes it or answers EEXIST, and what was there where it was, then a
  -- successful `rss_mkdir_p` leaves the whole path there, and so it does each directory in front of
  -- a slash that is not the first byte.
  mkdir_p-there :
      (c : ℕ) (a b : Bytes) (f : F)
      → let r = mkdir_p mkdir (c ∷ (a ++ b'/' ∷ b)) f in
        r.0 ≡ true → (is_there (c ∷ (a ++ b'/' ∷ b)) r.1 ≡ true) × (is_there (c ∷ a) r.1 ≡ true)
  unfolding mkdir_p
  mkdir_p-there c a b f h = (walk_whole (c ∷ []) (a ++ b'/' ∷ b) f h, walk_parent (c ∷ []) a b f h)
