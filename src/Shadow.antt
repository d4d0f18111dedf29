-- ===== src/Shadow.antt =====
-- src/rss_shadow.c on the bytes of the password file; `none` is a file that cannot be opened. The
-- file holds no NUL and the user's name is not a NULL pointer.
pub mod Field
pub mod Hash
use raptor_common.Base.{
  ℕ, zero, suc, ◌-◌, ◌+◌, Bool, true, false, ◌&&◌, ◌||◌, not, List, [], ◌∷◌, Option, none, some,
  leb, ◌==◌, if◌then◌else◌, length, drop, get_or, Bytes, codes,
}
use raptor_common.Config.Load.{fgets}
use raptor_common.Text.{starts_with, strlcpy}

-- `rss_shadow_state_t`
pub data State : Type 0 where
  set unset locked missing : State

-- `rss_shadow_state_name`
unfoldable pub state_name : State → Bytes
state_name set = codes "set"
state_name unset = codes "unset"
state_name locked = codes "locked"
state_name missing = codes "missing"

-- The loop of `usable_hash`: how many dollars, and what is behind the last.
unfoldable pub count_dollars : Bytes → ℕ → Bytes → ℕ × Bytes
count_dollars [] dollars behind = (dollars, behind)
count_dollars (c ∷ s) dollars behind =
    let is_dollar = c == b'$' in
    count_dollars s (if is_dollar then dollars + 1 else dollars) (if is_dollar then s else behind)

unfoldable pub usable_hash : Bytes → Bool
usable_hash [] = false
usable_hash (c ∷ s) =
    if not (c == b'$')
    then false
    else let (dollars, behind) = count_dollars (c ∷ s) 0 s in
      leb 3 dollars && not (length behind == 0)

unfoldable pub contains : ℕ → Bytes → Bool
contains c [] = false
contains c (x ∷ s) = x == c || contains c s

-- `strcspn` and the assignment of a NUL there: the field up to a colon, and up to a line end.
unfoldable pub until_either : ℕ → ℕ → Bytes → Bytes
until_either a b [] = []
until_either a b (c ∷ s) = if c == a || c == b then [] else c ∷ until_either a b s

unfoldable pub field_at : Bytes → Bytes
field_at p = until_either b'\r' b'\n' (until_either b':' b':' p)

-- The loop of `passwd_field` over a buffer of `line_size` bytes.
unfoldable pub field_loop : ℕ → ℕ → Bytes → Bytes → Option Bytes
field_loop zero line_size user text = none
field_loop (suc fuel) line_size user text =
    let (line, rest) = fgets (line_size - 1) text in
    let next = field_loop fuel line_size user rest in
    if length line == 0
    then none
    else if not (starts_with line user) || not (get_or line (length user) 0 == b':')
    then next
    else some (field_at (drop (length user + 1) line))

-- `passwd_field`: a line is a byte at least, so a round for each byte is enough.
unfoldable pub passwd_field : Option Bytes → Bytes → ℕ → Option Bytes
passwd_field file [] line_size = none
passwd_field none (u ∷ user) line_size = none
passwd_field (some text) (u ∷ user) line_size =
    if contains b':' (u ∷ user)
    then none
    else field_loop (suc (length text)) line_size (u ∷ user) text

-- `rss_shadow_state`
unfoldable pub shadow_state : Option Bytes → Bytes → State
shadow_state file user = elim (passwd_field file user 512) [
  | none ↦ missing
  | some f ↦ if length f == 0 then unset else if usable_hash f then set else locked
]

-- `rss_shadow_hash`: the hash that is copied out; `none` is the result false.
unfoldable pub shadow_hash : Option Bytes → Bytes → ℕ → Option Bytes
shadow_hash file user outsz = elim (passwd_field file user 512) [
  | none ↦ none
  | some f ↦
      if not (usable_hash f) || leb outsz (length f)
      then none
      else some (strlcpy [] (some f) outsz).0
]
