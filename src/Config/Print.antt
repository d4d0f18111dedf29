-- ===== src/Config/Print.antt =====
-- `config_write` (src/rss_config.c): the whole store as the text of a file. Its allocations
-- succeed, and an int holds the sizes.
use mathlib.Core.List.{reverse}
use raptor_common.Base.{
  ℕ, ◌+◌, ◌-◌, not, ◌&&◌, List, [], ◌∷◌, ◌++◌, ltb, length, take, if◌then◌else◌, Bytes, codes,
}
use raptor_common.Config.Types.{Entry, Section, Config}

-- `snprintf` of "%s = %s\n" and of "[%s]\n"
unfoldable pub entry_line : Bytes → Bytes → Bytes
entry_line key value = key ++ (codes " = " ++ (value ++ (b'\n' ∷ [])))

unfoldable pub header_line : Bytes → Bytes
header_line name = b'[' ∷ (name ++ (b']' ∷ b'\n' ∷ []))

-- Stored defaults and unset keys stay out of the file.
unfoldable pub saved_entries : List Entry → List Entry
saved_entries [] = []
saved_entries (e ∷ es) =
    if not e.defaulted && not e.removed then e ∷ saved_entries es else saved_entries es

-- The buffer: the first `off` bytes of it, and `buf_size`.
pub record Buffer : Type 0 where
  pub text : Bytes
  pub size : ℕ

-- `realloc` to 4096 bytes more than `need`, where the buffer is smaller than that.
unfoldable pub room_for : ℕ → Buffer → Buffer
room_for need b = if ltb b.size need then record b { size = need + 4096 } else b

-- `off += snprintf(buf + off, buf_size - off, ...)` of a line that is longer than the rest of the
-- buffer by its NUL at most: then the NUL stands where the last byte of the line was to be.
unfoldable pub print_line : Bytes → Buffer → Buffer
print_line line b =
    let room = b.size - length b.text in
    if ltb (length line) room
    then record b { text = b.text ++ line }
    else record b { text = b.text ++ (take (room - 1) line ++ 0 ∷ []) }

unfoldable pub print_entries : Buffer → List Entry → Buffer
unfolding entry_line print_line room_for
print_entries b [] = b
print_entries b (e ∷ es) =
    let need = length b.text + length e.key + length e.value + 8 in
    print_entries (print_line (entry_line e.key e.value) (room_for need b)) es

-- The header, with a blank line between sections; the global section has none.
unfoldable pub blank_line : Buffer → Buffer
blank_line b = if ltb 0 (length b.text) then record b { text = b.text ++ b'\n' ∷ [] } else b

unfoldable pub print_header : Buffer → Bytes → Buffer
unfolding header_line print_line room_for blank_line
print_header b [] = b
print_header b (c ∷ name) =
    let need = length b.text + length (c ∷ name) + 4 in
    print_line (header_line (c ∷ name)) (blank_line (room_for need b))

unfoldable pub print_section : Buffer → Section → Buffer
unfolding saved_entries print_header print_entries
print_section b s = elim (reverse (saved_entries s.entries)) [
  | [] ↦ b
  | e ∷ es ↦ print_entries (print_header b s.name) (e ∷ es)
]

unfoldable pub print_sections : Buffer → List Section → Buffer
unfolding print_section
print_sections b [] = b
print_sections b (s ∷ ss) = print_sections (print_section b s) ss

-- The buffer that `config_write` hands to `rss_write_file_atomic`.
unfoldable pub config_text : Config → Bytes
unfolding print_sections
config_text cfg = (print_sections (record { text = []; size = 4096 }) (reverse cfg)).text
