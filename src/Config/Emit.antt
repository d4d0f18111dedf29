-- ===== src/Config/Emit.antt =====
-- The second half of `config_write_surgical` (src/rss_config.c): the text with the dirty entries
-- edited in.
use raptor_common.Base.{
  ℕ, zero, suc, ◌+◌, ◌-◌, Bool, true, false, not, ◌&&◌, ltb, leb, ◌==◌, List, [], ◌∷◌, ◌++◌, map,
  Option, none, some, if◌then◌else◌, length, take, drop, Bytes, codes,
}
use raptor_common.Config.Lines.{lines}
use raptor_common.Config.Print.{entry_line, header_line}
use raptor_common.Config.Surgical.{Ref, is_none, bind_lines, settle, drop_gaps}
use raptor_common.Config.Types.{Entry, max_line}
use raptor_common.Text.{case_eq}

abbrev pub is_line : ℕ → Option ℕ → Bool
is_line l none = false
is_line l (some k) = k == l

-- A loop that appends the entries that pass the test, and are not done, as new lines.
unfoldable pub emit_where : (Ref → Bool) → List Ref → Bytes × List Ref
unfolding entry_line
emit_where test [] = ([], [])
emit_where test (r ∷ rs) =
    let rest = emit_where test rs in
    elim r.target [
      | none ↦ (rest.0, r ∷ rest.1)
      | some e ↦
          if not r.done && test r
          then (entry_line e.key e.value ++ rest.0, record r { done = true } ∷ rest.1)
          else (rest.0, r ∷ rest.1)
    ]

-- Keys of the global section that nothing in the file is near.
abbrev pub at_top : Ref → Bool
at_top r = elim r.sec [ [] ↦ is_none r.replace_line && is_none r.append_line | c ∷ s ↦ false ]

abbrev pub after_line : ℕ → Ref → Bool
after_line l r = is_none r.replace_line && is_line l r.append_line

-- The entry that replaces line `l`, the first of them.
unfoldable pub find_rep : ℕ → List Ref → Option Ref
find_rep l [] = none
find_rep l (r ∷ rs) = if is_line l r.replace_line then some r else find_rep l rs

unfoldable pub mark_rep : ℕ → List Ref → List Ref
mark_rep l [] = []
mark_rep l (r ∷ rs) =
    if is_line l r.replace_line then record r { done = true } ∷ rs else r ∷ mark_rep l rs

abbrev pub comment_length : Bytes → Option ℕ → ℕ
comment_length line none = 0
comment_length line (some off) = length line - off

abbrev pub comment_part : ℕ → Bytes → Option ℕ → Bytes
comment_part n line none = []
comment_part n line (some off) = take n (drop off line)

-- The line with a new value: the file's spelling of the key and its comment stay if the line is not
-- too long for the parser.
unfoldable pub replaced_line : Bytes → Ref → Entry → Bytes
replaced_line line r e =
    let vlen = length e.value in
    let comment_len = comment_length line r.rep_com_off in
    let comlen = if leb max_line (r.rep_key_end + 3 + vlen + comment_len) then 0 else comment_len in
    let keylen = if leb max_line (r.rep_key_end + 3 + vlen) then 0 else r.rep_key_end in
    (if ltb 0 keylen then take keylen line else e.key)
    ++ (codes " = " ++ (e.value ++ (comment_part comlen line r.rep_com_off ++ (b'\n' ∷ []))))

abbrev pub verbatim : Bytes → Bytes
verbatim line = line ++ (b'\n' ∷ [])

-- One line of the file, before the appended keys.
unfoldable pub emit_old : ℕ → Bytes → Bool → List Ref → Bytes × List Ref
unfolding find_rep mark_rep replaced_line
emit_old l line true refs = ([], mark_rep l refs)
emit_old l line false refs = elim (find_rep l refs) [
  | none ↦ (verbatim line, refs)
  | some r ↦ elim r.target [
    | none ↦ (verbatim line, refs)
    | some e ↦ (replaced_line line r e, mark_rep l refs)
  ]
]

unfoldable pub emit_lines : ℕ → List (Bytes × Bool) → List Ref → Bytes × List Ref
unfolding emit_old emit_where
emit_lines l [] refs = ([], refs)
emit_lines l ((line, dropped) ∷ rest) refs =
    let old = emit_old l line dropped refs in
    let new = emit_where (after_line l) old.1 in
    let more = emit_lines (suc l) rest new.1 in (old.0 ++ (new.0 ++ more.0), more.1)

-- Is the text so far not empty and without a blank line at its end?
unfoldable pub wants_gap : Bytes → Bool
wants_gap [] = false
wants_gap (a ∷ []) = true
wants_gap (a ∷ b ∷ []) = not (a == b'\n' && b == b'\n')
wants_gap (a ∷ b ∷ c ∷ s) = wants_gap (b ∷ c ∷ s)

-- The test of the last loop: an entry of a section that the file does not have.
abbrev pub is_missing : Ref → Bool
is_missing r = elim r.target [
  | none ↦ false
  | some e ↦ not r.done && not r.sec_in_file && elim r.sec [ [] ↦ false | c ∷ s ↦ true ]
]

abbrev pub same_section : Bytes → Ref → Bool
same_section sec r = case_eq r.sec sec

-- Sections that the file does not have yet, behind the text `out`; a round for each entry.
unfoldable pub new_sections : ℕ → List Ref → Bytes → Bytes
unfolding emit_where header_line wants_gap
new_sections zero refs out = out
new_sections (suc n) [] out = out
new_sections (suc n) (r ∷ rs) out = elim (is_missing r) [
  | false ↦ new_sections n rs out
  | true ↦
      let group = emit_where (same_section r.sec) (r ∷ rs) in
      let gap = if wants_gap out then b'\n' ∷ [] else [] in
      new_sections n (drop 1 group.1) (out ++ (gap ++ (header_line r.sec ++ group.0)))
]

-- What `config_write_surgical` hands to `rss_write_file_atomic`.
unfoldable pub surgical_text : Bytes → List Ref → Bytes
unfolding lines bind_lines drop_gaps emit_where emit_lines new_sections
surgical_text text dirty =
    let file = lines text in
    let bound = bind_lines 0 [] false file dirty in
    let top = emit_where at_top (map settle bound.0) in
    let body = emit_lines 0 (drop_gaps file bound.1) top.1 in
    new_sections (length body.1) body.1 (top.0 ++ body.0)
