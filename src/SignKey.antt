-- ===== src/SignKey.antt =====
-- src/rss_sign.c: the device's signing key. The file calls are those of FileIo with the ones below;
-- monocypher is a parameter, its wiping of buffers and the log lines are left out.
pub mod Random
pub mod Agreement
use raptor_common.Base.{
  ℕ, zero, suc, ◌+◌, ◌-◌, ◌/◌, ◌%◌, Bool, true, false, ◌&&◌, [], ◌∷◌, ◌++◌, Option, none, some, ltb,
  ◌==◌, if◌then◌else◌, length, take, codes, Bytes,
}
use raptor_common.FileIo.Calls.{System, Answer, interrupted, failed, done}
use raptor_common.FileIo.{before_slash}
use raptor_common.Text.{strlcpy}

-- The result of open with O_CREAT | O_EXCL: a descriptor, EEXIST, or another error.
pub data Exclusive : Type 0 where
  created : ℕ → Exclusive
  there_already not_created : Exclusive

pub record KeyCalls (S : System) : Type 0 where
  -- open(path, O_WRONLY | O_CREAT | O_EXCL, 0600)
  pub open_exclusive : Bytes → S.State → Exclusive × S.State
  -- open(path, O_WRONLY | O_CREAT | O_TRUNC, mode)
  pub open_truncated : Bytes → ℕ → S.State → Option ℕ × S.State
  pub mkdir : Bytes → S.State → S.State
  pub usleep : ℕ → S.State → S.State

-- crypto_ed25519_key_pair, as the secret and the public key, and crypto_sha512
pub record Crypto : Type 0 where
  pub key_pair : Bytes → Bytes × Bytes
  pub sha512 : Bytes → Bytes

-- `rss_sign_key_t`
pub record Key : Type 0 where
  pub secret : Bytes
  pub public_key : Bytes
  pub fingerprint : Bytes

abbrev pub hex_digit : ℕ → ℕ
hex_digit d = if ltb d 10 then b'0' + d else b'a' + (d - 10)

-- "%02x" of each byte
unfoldable pub hex_text : Bytes → Bytes
hex_text [] = []
hex_text (b ∷ bs) = hex_digit (b / 16) ∷ hex_digit (b % 16) ∷ hex_text bs

-- A read or a write that gave as much as it was asked for.
abbrev pub whole_seed : Answer Bytes → Option Bytes
whole_seed (done bs) = if length bs == 32 then some bs else none
whole_seed _ = none

abbrev pub is_whole : ℕ → Answer ℕ → Bool
is_whole n (done k) = k == n
is_whole n _ = false

module _ (S : System) (C : KeyCalls S) where
  -- The loop of `read_urandom` behind the bytes it has; an interruption ends it too.
  unfoldable pub urandom_loop : ℕ → ℕ → Bytes → S.State → Option Bytes × S.State
  urandom_loop zero fd got s = (some got, S.close fd s)
  urandom_loop (suc fuel) fd got s =
      let (answer, s') = S.read fd (32 - length got) s in
      if ltb (length got) 32
      then elim answer [
        | interrupted ↦ (none, S.close fd s')
        | failed ↦ (none, S.close fd s')
        | done [] ↦ (none, S.close fd s')
        | done (b ∷ bs) ↦ urandom_loop fuel fd (got ++ b ∷ bs) s'
      ]
      else (some got, S.close fd s)

  -- `read_urandom` for a seed of 32 bytes: each round reads a byte at least.
  unfoldable pub read_urandom : S.State → Option Bytes × S.State
  unfolding urandom_loop
  read_urandom s =
      let (opened, s') = S.open_read (codes "/dev/urandom") s in
      elim opened [ none ↦ (none, s') | some fd ↦ urandom_loop 32 fd [] s' ]

  -- `mkdir_parent`: the path cut to its buffer, up to a slash that is not the first byte.
  unfoldable pub mkdir_parent : Bytes → S.State → S.State
  unfolding before_slash
  mkdir_parent path s = elim (before_slash (strlcpy [] (some path) 256).0) [
    | none ↦ s
    | some [] ↦ s
    | some (c ∷ dir) ↦ C.mkdir (c ∷ dir) s
  ]

  -- The seed in a file that this process has created.
  unfoldable pub store_seed : Bytes → ℕ → Bytes → S.State → Option Bytes × S.State
  store_seed path fd seed s =
      let (answer, s1) = S.write fd seed s in
      let (synced, s2) = S.fsync fd s1 in
      if is_whole 32 answer
      then (if synced then (some seed, S.close fd s2) else (none, S.unlink path (S.close fd s2)))
      else (none, S.unlink path (S.close fd s1))

  -- A new seed, in a file that must not be there yet; `lost` is what follows a lost race.
  unfoldable pub make_seed :
      Bytes → (S.State → Option Bytes × S.State) → S.State → Option Bytes × S.State
  unfolding read_urandom mkdir_parent store_seed
  make_seed path lost s =
      let (random, s1) = read_urandom s in
      elim random [
        | none ↦ (none, s1)
        | some seed ↦
            let (made, s2) = C.open_exclusive path (mkdir_parent path s1) in
            elim made [
              | created fd ↦ store_seed path fd seed s2
              | there_already ↦ lost s2
              | not_created ↦ (none, s2)
            ]
      ]

  -- A round of the loop of `rss_sign_key_load`, with what follows a short read and a lost race.
  unfoldable pub attempt :
      Bytes
      → (S.State → Option Bytes × S.State)
      → (S.State → Option Bytes × S.State)
      → S.State
      → Option Bytes × S.State
  unfolding make_seed
  attempt path short lost s =
      let (opened, s1) = S.open_read path s in
      elim opened [
        | none ↦ make_seed path lost s1
        | some fd ↦
            let (answer, s2) = S.read fd 32 s1 in
            elim (whole_seed answer) [
              | some seed ↦ (some seed, S.close fd s2)
              | none ↦ short (S.close fd s2)
            ]
      ]

  -- Its loop, by the number of times that it may still begin again.
  unfoldable pub load_seed : ℕ → Bytes → S.State → Option Bytes × S.State
  unfolding attempt
  load_seed zero path s = attempt path (λ t. (none, t)) (λ t. (none, t)) s
  load_seed (suc left) path s =
      attempt path (λ t. load_seed left path (C.usleep 10000 t)) (λ t. load_seed left path t) s

  -- `write_file_mode`: 0 if every byte was written and synced.
  unfoldable pub write_file_mode : Bytes → Bytes → ℕ → S.State → Bool × S.State
  write_file_mode path bytes mode s =
      let (opened, s1) = C.open_truncated path mode s in
      elim opened [
        | none ↦ (false, s1)
        | some fd ↦
            let (answer, s2) = S.write fd bytes s1 in
            let (synced, s3) = S.fsync fd s2 in
            if is_whole (length bytes) answer
            then (synced, S.close fd s3)
            else (false, S.close fd s2)
      ]

  -- What `rss_sign_key_load` makes of a seed; a public key that cannot be exported is only logged.
  abbrev pub key_of : Crypto → Bytes → Key
  key_of K seed = record {
    secret = (K.key_pair seed).0;
    public_key = (K.key_pair seed).1;
    fingerprint = take 8 (K.sha512 (K.key_pair seed).1);
  }

  unfoldable pub sign_key_load : Crypto → Bytes → S.State → Option Key × S.State
  unfolding load_seed write_file_mode hex_text
  sign_key_load K path s =
      let (loaded, s1) = load_seed 3 path s in
      elim loaded [
        | none ↦ (none, s1)
        | some seed ↦
            let key = key_of K seed in
            let hex = take 64 (hex_text (take 32 key.public_key)) in
            (some key, (write_file_mode (take 255 (path ++ codes ".pub")) hex 420 s1).1)
      ]
