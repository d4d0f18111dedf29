-- ===== src/Tests/Disk/Keys.antt =====
-- The signing key of a device on the disk in memory.
use raptor_common.Base.{
  ℕ, [], Option, none, some, replicate, codes, Bytes, ◌≡◌, ◌≢◌, refl, arith, Option-cases, inl, inr,
}
use raptor_common.SignKey.Random.{KeyLaws}
use raptor_common.SignKey.{KeyCalls, Exclusive, created, there_already, load_seed, attempt}
use raptor_common.Tests.Disk.{Disk, at, put, put_same, disk, disk-Lawful}
use raptor_common.Text.{str_eq}

abbrev make_new : Bytes → Disk → Exclusive × Disk
make_new p d = elim (d.file p) [
  | some c ↦ (there_already, d)
  | none ↦ (created 6, record d { file = put p (some []) d.file; target = some p })
]

abbrev calls : KeyCalls disk
calls = record {
  open_exclusive = make_new;
  open_truncated =
      λ p mode d. (some 4, record d { file = put p (some []) d.file; target = some p });
  mkdir = λ p d. d;
  usleep = λ n d. d;
}

made_new :
    (p : Bytes) (d : Disk) (fd : ℕ)
    → (make_new p d).0 ≡ created fd
    → (d.file p ≡ none) × ((make_new p d).1.file p ≡ some []) × ((make_new p d).1.target ≡ some p)
made_new p d fd e = elim (Option-cases (d.file p)) [
  | inr (c, f) ↦ absurd (ground (arith, e, f))
  | inl f ↦ rw (f, make_new) (refl, put_same p (some []) d.file, refl)
]

not_made :
    (p q : Bytes) (d : Disk)
    → ((fd : ℕ) → (make_new p d).0 ≢ created fd)
    → (make_new p d).1.file q ≡ d.file q
not_made p q d h = elim (Option-cases (d.file p)) [
  | inr (c, f) ↦ rw (f, make_new) refl
  | inl f ↦ absurd (h 6 (rw (f, make_new) refl))
]

calls-KeyLaws : KeyLaws disk disk-Lawful calls
unfolding disk-Lawful
calls-KeyLaws = record {
  open_exclusive_created = λ p d fd e. made_new p d fd e;
  open_exclusive_refused = λ p q d h. not_made p q d h;
  mkdir-file = λ p q d. refl;
  usleep-file = λ n q d. refl;
}

abbrev path : Bytes
path = codes "/etc/key"

abbrev seed : Bytes
seed = replicate 32 7

abbrev booted : Disk
booted = at (put path (some seed) (λ q. none)) [] none 0

abbrev first : Option Bytes × Disk
first = load_seed disk calls 3 path booted

loaded : first.0 ≡ some seed
unfolding load_seed attempt str_eq
loaded = refl

loaded_again : (load_seed disk calls 3 path first.1).0 ≡ some seed
unfolding load_seed attempt str_eq
loaded_again = refl
