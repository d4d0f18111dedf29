-- ===== src/Config/Classify.antt =====
-- `classify_line` (src/rss_config.c): what the parser makes of a line, with offsets into the line.
-- A line holds no NUL.
use raptor_common.Base.{
  ℕ, ◌+◌, ◌-◌, Bool, false, not, ◌||◌, leb, ◌==◌, [], ◌∷◌, Option, none, some, if◌then◌else◌,
  length, take, Bytes,
}
use raptor_common.Config.Load.{find_comment, cut_blanks}
use raptor_common.Config.Types.{max_line, max_secn, max_key}
use raptor_common.Text.{trim, trim_front, is_space, split_at_char}

-- The field `kind`, with the fields that go with it. `key_line key key_end com_off`: no comment
-- stands for the offset -1.
pub data Kind : Type 0 where
  inert : Kind
  header : Bytes → Kind
  key_line : Bytes → ℕ → Option ℕ → Kind

-- `line_info_t`
pub record LineInfo : Type 0 where
  pub kind : Kind
  pub nonblank : Bool

unfoldable pub is_nonblank : Bytes → Bool
is_nonblank [] = false
is_nonblank (c ∷ s) = not (is_space c) || is_nonblank s

-- How many bytes a trim takes off at the front.
abbrev pub lead : Bytes → ℕ
lead s = length s - length (trim_front s)

-- The run of blanks in front of an inline comment counts to it; `at` is where the value starts.
abbrev pub comment_offset : ℕ → Bytes → Option ℕ
comment_offset at val = elim (find_comment false val) [
  | none ↦ none
  | some front ↦ some (at + length (cut_blanks front))
]

-- `at` is where the trimmed line starts.
unfoldable pub classify_pair : ℕ → Bytes → Kind
classify_pair at s = elim (split_at_char b'=' s) [
  | none ↦ inert
  | some (k, v) ↦ elim (trim k) [
    | [] ↦ inert
    | c ∷ key ↦
        key_line (take (max_key - 1) (c ∷ key)) (at + lead k + length (c ∷ key))
          (comment_offset (at + length k + 1 + lead v) (trim v))
  ]
]

unfoldable pub classify_header : Bytes → Kind
classify_header s = elim (split_at_char b']' s) [
  | none ↦ inert
  | some (name, behind) ↦ header (take (max_secn - 1) (trim name))
]

unfoldable pub classify_trimmed : ℕ → Bytes → Kind
unfolding classify_header classify_pair
classify_trimmed at [] = inert
classify_trimmed at (c ∷ s) =
    if c == b'#' || c == b';'
    then inert
    else if c == b'['
    then classify_header s
    else classify_pair at (c ∷ s)

unfoldable pub classify_line : Bytes → LineInfo
unfolding is_nonblank classify_trimmed trim
classify_line raw = record {
  nonblank = is_nonblank raw;
  kind = if leb max_line (length raw) then inert else classify_trimmed (lead raw) (trim raw);
}
