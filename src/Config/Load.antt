-- ===== src/Config/Load.antt =====
-- `rss_config_load` (src/rss_config.c) on the bytes of a file that could be opened and that holds
-- no NUL: `fgets` with its buffer, the over-long line, and what a line does to the store.
use raptor_common.Base.{
  ℕ, zero, suc, ◌-◌, Bool, false, not, ◌&&◌, ◌||◌, [], ◌∷◌, Option, none, some, ◌==◌, if◌then◌else◌,
  length, Bytes,
}
use raptor_common.Config.Store.{on_section, add_entry}
use raptor_common.Config.Types.{Config, max_line, max_secn}
use raptor_common.Text.{trim, split_at_char, strlcpy}

abbrev is_blank : ℕ → Bool
is_blank c = c == b' ' || c == b'\t'

-- `find_inline_comment`: what stands in front of the first '#' that follows a blank.
unfoldable pub find_comment : Bool → Bytes → Option Bytes
find_comment after_blank [] = none
find_comment after_blank (c ∷ s) =
    let rest = find_comment (is_blank c) s in
    if c == b'#' && after_blank
    then some []
    else elim rest [ none ↦ none | some front ↦ some (c ∷ front) ]

-- Cuts blanks at the end.
unfoldable pub cut_blanks : Bytes → Bytes
cut_blanks [] = []
cut_blanks (c ∷ s) = elim (cut_blanks s) [
  | [] ↦ if is_blank c then [] else c ∷ []
  | x ∷ r ↦ c ∷ x ∷ r
]

-- `strip_inline_comment`: its loop stops at the first byte, blank or not.
unfoldable pub strip_inline_comment : Bytes → Bytes
unfolding find_comment cut_blanks
strip_inline_comment s = elim (find_comment false s) [
  | none ↦ s
  | some [] ↦ []
  | some (c ∷ front) ↦ c ∷ cut_blanks front
]

pub record Loading : Type 0 where
  pub section : Bytes
  pub config : Config

-- `[name]`, behind the bracket.
unfoldable pub load_header : Bytes → Loading → Loading
load_header s st = elim (split_at_char b']' s) [
  | none ↦ st
  | some (name, behind) ↦ record st { section = (strlcpy st.section (some (trim name)) max_secn).0 }
]

-- Key and value, once both are trimmed: a line with no key is passed over.
unfoldable pub store_pair : Bytes → Bytes → Loading → Loading
store_pair [] val st = st
store_pair (c ∷ key) val st = record st {
  config = (on_section st.section (add_entry (c ∷ key) val) st.config).1;
}

unfoldable pub load_pair : Bytes → Loading → Loading
unfolding strip_inline_comment store_pair
load_pair s st = elim (split_at_char b'=' s) [
  | none ↦ st
  | some (k, v) ↦ store_pair (trim k) (trim (strip_inline_comment (trim v))) st
]

unfoldable pub load_trimmed : Bytes → Loading → Loading
unfolding load_header load_pair
load_trimmed [] st = st
load_trimmed (c ∷ s) st =
    if c == b'#' || c == b';'
    then st
    else if c == b'['
    then load_header s st
    else load_pair (c ∷ s) st

-- The body of the loop for a line that fits.
unfoldable pub load_line : Bytes → Loading → Loading
unfolding load_trimmed trim
load_line line st = load_trimmed (trim line) st

-- `fgets`: at most `room` bytes, up to the newline, and what is left to read.
unfoldable pub fgets : ℕ → Bytes → Bytes × Bytes
fgets zero text = ([], text)
fgets (suc room) [] = ([], [])
fgets (suc room) (c ∷ text) =
    let (line, rest) = fgets room text in if c == b'\n' then (c ∷ [], text) else (c ∷ line, rest)

-- The rest of an over-long line is read away.
unfoldable pub skip_line : Bytes → Bytes
skip_line [] = []
skip_line (c ∷ text) = if c == b'\n' then text else skip_line text

unfoldable pub ends_line : Bytes → Bool
ends_line [] = false
ends_line (c ∷ []) = c == b'\n'
ends_line (c ∷ d ∷ s) = ends_line (d ∷ s)

-- The line in the buffer fills it without its newline: one more byte tells if it fits.
unfoldable pub peek : Bytes → Bytes → Loading → Bytes × Loading
peek line [] st = ([], load_line line st)
peek line (c ∷ rest) st = if c == b'\n' then (rest, load_line line st) else (skip_line rest, st)

-- One round of the `while` loop; `none` at the end of the file.
unfoldable pub load_round : Bytes → Loading → Option (Bytes × Loading)
load_round text st =
    let (line, rest) = fgets (max_line - 1) text in
    elim line [
      | [] ↦ none
      | c ∷ l ↦ some (
          if length (c ∷ l) == max_line - 1 && not (ends_line (c ∷ l))
          then peek (c ∷ l) rest st
          else (rest, load_line (c ∷ l) st))
    ]

unfoldable pub load_loop : ℕ → Bytes → Loading → Loading
load_loop zero text st = st
load_loop (suc fuel) text st = elim (load_round text st) [
  | none ↦ st
  | some (rest, next) ↦ load_loop fuel rest next
]

-- `rss_config_load`; each round reads a byte, so a round for each byte and one for the end do.
unfoldable pub load : Bytes → Config
load text = (load_loop (suc (length text)) text (record { section = []; config = [] })).config
