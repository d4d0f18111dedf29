-- ===== src/Tests/Disk.antt =====
-- A disk in memory that reads and writes at most 32 bytes at a time, with interruptions, and the file
-- functions on it.
mod Saved
mod Keys
use raptor_common.Base.{
  ℕ, zero, suc, ◌+◌, ◌≤◌, ◌<◌, Bool, true, false, [], ◌∷◌, ◌++◌, Option, none, some, ltb, codes,
  if◌then◌else◌, length, take, drop, length-take, take-append-drop, Bytes, ◌≡◌, ◌≢◌, refl, sym, ap,
  arith, Option-cases, ◌∙◌, Bool-cases, inl, inr,
}
use raptor_common.FileIo.Calls.{System, Answer, interrupted, failed, done}
use raptor_common.FileIo.Contract.{Lawful, ReadAnswer, WriteAnswer}
use raptor_common.FileIo.Atomic.{write_file_atomic-Atomic}
use raptor_common.FileIo.Moving.{Atomic}
use raptor_common.FileIo.{
  contents, replaced, read_file, write_file_atomic, read_loop, write_loop, move_over, sync_parent,
  before_slash,
}
use raptor_common.FileIo.Reading.{NeverFails, ReadsWhole, SizeFits, read_file-ReadsWhole}
use raptor_common.Text.Names.{str_eq_iff}
use raptor_common.Text.{str_eq}

pub record Disk : Type 0 where
  pub file : Bytes → Option Bytes
  pub rest : Bytes
  pub target : Option Bytes
  pub interruptions : ℕ

abbrev put : Bytes → Option Bytes → (Bytes → Option Bytes) → Bytes → Option Bytes
put p v f q = if str_eq q p then v else f q

put_same : (p : Bytes) (v : Option Bytes) (f : Bytes → Option Bytes) → put p v f p ≡ v
put_same p v f = rw ((str_eq_iff p p).1 refl) refl

put_other :
    (p : Bytes) (v : Option Bytes) (f : Bytes → Option Bytes) (q : Bytes)
    → q ≢ p
    → put p v f q ≡ f q
put_other p v f q h = elim (Bool-cases (str_eq q p)) [
  | inl e ↦ absurd (h ((str_eq_iff q p).0 e))
  | inr e ↦ rw e refl
]

abbrev or_empty : Option Bytes → Bytes
or_empty none = []
or_empty (some c) = c

abbrev is_some : Option Bytes → Bool
is_some none = false
is_some (some c) = true

abbrev open_disk : Bytes → Disk → Option ℕ × Disk
open_disk p d = elim (d.file p) [ none ↦ (none, d) | some c ↦ (some 3, record d { rest = c }) ]

abbrev read_disk : ℕ → Disk → Answer Bytes × Disk
read_disk n d = elim d.interruptions [
  | zero ↦
      let k = if ltb n 32 then n else 32 in
      (done (take k d.rest), record d { rest = drop k d.rest })
  | suc i ↦ (interrupted, record d { interruptions = i })
]

abbrev write_to : Option Bytes → Bytes → Disk → Disk
write_to none bs d = d
write_to (some p) bs d = record d { file = put p (some (or_empty (d.file p) ++ bs)) d.file }

abbrev write_disk : Bytes → Disk → Answer ℕ × Disk
write_disk bs d = elim d.interruptions [
  | zero ↦
      let k = if ltb (length bs) 32 then length bs else 32 in
      (done k, write_to d.target (take k bs) d)
  | suc i ↦ (interrupted, record d { interruptions = i })
]

abbrev pub disk : System
disk = record {
  State = Disk;
  alloc = λ n. true;
  open_read = open_disk;
  file_size = λ fd d. some (length d.rest);
  file_mode = λ p d. some 384;
  read = λ fd n d. read_disk n d;
  open_new = λ p mode d. (some 4, record d { file = put p (some []) d.file; target = some p });
  write = λ fd bs d. write_disk bs d;
  fsync = λ fd d. (true, d);
  close = λ fd d. d;
  rename = λ a b d. (true, record d { file = put a none (put b (d.file a) d.file) });
  unlink = λ a d. record d { file = put a none d.file };
  access = λ p d. is_some (d.file p);
  open_lock = λ p d. (some 5, record d { file = put p (some (or_empty (d.file p))) d.file });
  flock = λ exclusive fd d. d;
}

take_rest : (k : ℕ) (xs : Bytes) → 0 < k → take k xs ≡ [] → xs ≡ []
take_rest zero xs h e = elim h [ ]
take_rest (suc k) [] h e = refl
take_rest (suc k) (x ∷ xs) h e = cc

abbrev pub at : (Bytes → Option Bytes) → Bytes → Option Bytes → ℕ → Disk
at f r t i = record { file = f; rest = r; target = t; interruptions = i }

open_disk-left :
    (p : Bytes) (d : Disk) (fd : ℕ)
    → (open_disk p d).0 ≡ some fd
    → (d.file p ≡ some (open_disk p d).1.rest) × ((open_disk p d).1.interruptions ≤ d.interruptions)
open_disk-left p d fd e = ground arith

read_disk-ReadAnswer :
    (n i : ℕ) (f : Bytes → Option Bytes) (r : Bytes) (t : Option Bytes)
    → 0 < n
    → let after = read_disk n (at f r t i) in
      ReadAnswer n r after.1.rest i after.1.interruptions after.0
read_disk-ReadAnswer n zero f r t h =
    let k = if ltb n 32 then n else 32 in
    let some_read : 0 < k = ground (arith, h) in
    let short : k ≤ n = ground arith in
    (
      sym (take-append-drop k r),
      omega (arith, length-take k r, short),
      take_rest k r some_read,
      omega arith,
    )
read_disk-ReadAnswer n (suc i) f r t h = (refl, omega arith)

write_disk-WriteAnswer :
    (bs p old : Bytes) (i : ℕ) (f : Bytes → Option Bytes) (r : Bytes)
    → 0 < length bs
    → f p ≡ some old
    → let after = write_disk bs (at f r (some p) i) in
      (after.1.target ≡ some p)
      × WriteAnswer bs old (after.1.file p) i after.1.interruptions after.0
write_disk-WriteAnswer bs p old zero f r h e =
    let k = if ltb (length bs) 32 then length bs else 32 in
    let some_written : 0 < k = ground (arith, h) in
    let short : k ≤ length bs = ground arith in
    (
      refl,
      (
        put_same p (some (or_empty (f p) ++ take k bs)) f
            ∙ ap (λ (o : Option Bytes). some (or_empty o ++ take k bs)) e,
        short,
        (λ none_written. absurd (omega arith)),
        omega arith,
      ),
    )
write_disk-WriteAnswer bs p old (suc i) f r h e = (refl, (e, omega arith))

write_disk-file :
    (bs p q : Bytes) (i : ℕ) (f : Bytes → Option Bytes) (r : Bytes)
    → q ≢ p
    → (write_disk bs (at f r (some p) i)).1.file q ≡ f q
write_disk-file bs p q zero f r h = put_other p _ f q h
write_disk-file bs p q (suc i) f r h = refl

open_disk-file : (p q : Bytes) (d : Disk) → (open_disk p d).1.file q ≡ d.file q
open_disk-file p q d = elim (Option-cases (d.file p)) [
  | inl e ↦ rw (e, open_disk) refl
  | inr (c, e) ↦ rw (e, open_disk) refl
]

read_disk-file :
    (n i : ℕ) (q : Bytes) (f : Bytes → Option Bytes) (r : Bytes) (t : Option Bytes)
    → (read_disk n (at f r t i)).1.file q ≡ f q
read_disk-file n zero q f r t = refl
read_disk-file n (suc i) q f r t = refl

opened : {A : Type 0} {a : A} → ¬ (some a ≡ none)
opened e = cc

accepted : true ≢ false
accepted e = cc

read_disk_answers :
    (n i : ℕ) (f : Bytes → Option Bytes) (r : Bytes) (t : Option Bytes)
    → (read_disk n (at f r t i)).0 ≢ failed
read_disk_answers n zero f r t e = cc
read_disk_answers n (suc i) f r t e = cc

disk-Lawful : Lawful disk
disk-Lawful = record {
  file = λ p d. d.file p;
  left = λ fd d. d.rest;
  target = λ fd d. d.target;
  patience = λ d. d.interruptions;
  open_read-file = λ p q d. open_disk-file p q d;
  open_read-left = λ p d fd e. open_disk-left p d fd e;
  read-ReadAnswer = λ fd n d h. read_disk-ReadAnswer n d.interruptions d.file d.rest d.target h;
  read-file = λ fd n q d. read_disk-file n d.interruptions q d.file d.rest d.target;
  open_new_refused = λ p mode q d e. absurd (opened e);
  open_new-target = λ p mode d fd e. (put_same p (some []) d.file, refl, omega arith);
  open_new-file = λ p mode q d h. put_other p (some []) d.file q h;
  write-WriteAnswer = λ fd bs p old d h t f.
      rw t (write_disk-WriteAnswer bs p old d.interruptions d.file d.rest h f);
  write-file = λ fd bs p q d t h. rw t (write_disk-file bs p q d.interruptions d.file d.rest h);
  fsync-file = λ fd q d. refl;
  close-file = λ fd q d. refl;
  rename_refused = λ a b q d e. absurd (accepted e);
  rename_moved = λ a b d e h. (
    put_other a none (put b (d.file a) d.file) b (λ e. h (sym e)) ∙ put_same b (d.file a) d.file,
    put_same a none (put b (d.file a) d.file),
  );
  rename-file = λ a b q d h k.
      put_other a none (put b (d.file a) d.file) q h ∙ put_other b (d.file a) d.file q k;
  unlink-file = λ a q d h. put_other a none d.file q h;
  access_there = λ p c d e. rw e refl;
  access_missing = λ p d e. rw e refl;
  open_lock-file = λ p q d h. put_other p (some (or_empty (d.file p))) d.file q h;
  flock-file = λ exclusive fd q d. refl;
}

disk-NeverFails : NeverFails disk disk-Lawful
unfolding disk-Lawful
disk-NeverFails = record {
  allocates = λ n. refl;
  opens = λ p c d e none_opened. absurd (ground (arith, e, none_opened));
  measures = λ fd d e. absurd (ground (arith, e));
  reads = λ fd n d e. read_disk_answers n d.interruptions d.file d.rest d.target e;
}

abbrev path : Bytes
path = codes "/etc/rss"

abbrev start : Disk
start = at (put path (some (codes "abcdefg")) (λ q. none)) [] none 2

start-SizeFits : SizeFits disk disk-Lawful path start
unfolding disk-Lawful str_eq
start-SizeFits fd size e =
    let same : some 7 ≡ some size = e in let shown : 7 ≡ size = cc in omega (arith, shown)

read_file_example : ReadsWhole disk disk-Lawful (read_file disk 10 path start).0 (codes "abcdefg")
unfolding disk-Lawful str_eq
read_file_example =
    read_file-ReadsWhole disk disk-Lawful 10 path (codes "abcdefg") start refl (omega arith)
      start-SizeFits (omega arith)

write_file_atomic_example :
    Atomic disk disk-Lawful path
      (codes "new text")
      start
      (write_file_atomic disk 11 path (codes "new text") start)
unfolding disk-Lawful
write_file_atomic_example =
    write_file_atomic-Atomic disk disk-Lawful 11 path (codes "new text") start
      (λ p d. put_same p none d.file) (omega arith)

runs :
    ((read_file disk 10 path start).0 ≡ contents (codes "abcdefg"))
    × ((write_file_atomic disk 11 path (codes "new text") start).0 ≡ replaced)
unfolding read_file write_file_atomic read_loop write_loop move_over sync_parent before_slash str_eq
runs = (refl, refl)
