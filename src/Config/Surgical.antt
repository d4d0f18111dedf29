-- ===== src/Config/Surgical.antt =====
-- `collect_dirty` and the first half of `config_write_surgical` (src/rss_config.c): what a save has
-- to write, and the lines of the file that it is bound to.
use mathlib.Core.List.{reverse}
use raptor_common.Base.{
  ℕ, suc, Bool, true, false, not, ◌&&◌, ◌||◌, List, [], ◌∷◌, ◌++◌, map, Option, none, some,
  if◌then◌else◌, Bytes,
}
use raptor_common.Config.Classify.{Kind, inert, header, key_line, LineInfo, classify_line}
use raptor_common.Config.Types.{Entry, Config}
use raptor_common.Text.{case_eq}

-- `dirty_ref_t`; `target` is `none` for the header line of a removed section. A line or an offset
-- that is not there is `none` instead of -1.
pub record Ref : Type 0 where
  pub sec : Bytes
  pub target : Option Entry
  pub replace_line : Option ℕ
  pub rep_key_end : ℕ
  pub rep_com_off : Option ℕ
  pub append_line : Option ℕ
  pub sec_in_file : Bool
  pub done : Bool

abbrev pub new_ref : Bytes → Option Entry → Ref
new_ref sec target = record {
  sec = sec;
  target = target;
  replace_line = none;
  rep_key_end = 0;
  rep_com_off = some 0;
  append_line = none;
  sec_in_file = false;
  done = false;
}

unfoldable pub dirty_entries : Bytes → List Entry → List Ref
dirty_entries sec [] = []
dirty_entries sec (e ∷ es) =
    if e.dirty then new_ref sec (some e) ∷ dirty_entries sec es else dirty_entries sec es

unfoldable pub dirty_refs : Config → List Ref
unfolding dirty_entries
dirty_refs [] = []
dirty_refs (s ∷ cfg) =
    (if s.removed && s.dirty then new_ref s.name none ∷ [] else [])
    ++ (dirty_entries s.name s.entries ++ dirty_refs cfg)

-- `collect_dirty`
unfoldable pub collect_dirty : Config → List Ref
unfolding dirty_refs
collect_dirty cfg = reverse (dirty_refs cfg)

-- `cursec` behind a line.
abbrev pub section_after : Kind → Bytes → Bytes
section_after inert cursec = cursec
section_after (header name) cursec = name
section_after (key_line key key_end com_off) cursec = cursec

abbrev pub is_header : Kind → Bool
is_header inert = false
is_header (header name) = true
is_header (key_line key key_end com_off) = false

abbrev pub is_none {ℓ} : {A : Type ℓ} → Option A → Bool
is_none none = true
is_none (some a) = false

-- A dirty entry of the current section at a line of it.
abbrev pub bind_kind : ℕ → Kind → Ref → Ref
bind_kind l inert r = r
bind_kind l (header name) r =
    if is_none r.target
    then record r { sec_in_file = true; replace_line = some l }
    else record r { sec_in_file = true }
bind_kind l (key_line key key_end com_off) r = elim r.target [
  | none ↦ r
  | some e ↦
      if case_eq e.key key
      then record r { replace_line = some l; rep_key_end = key_end; rep_com_off = com_off }
      else r
]

abbrev pub bind_append : ℕ → Bool → Ref → Ref
bind_append l nonblank r = if nonblank then record r { append_line = some l } else r

-- One round of the inner loop.
unfoldable pub bind_ref : ℕ → LineInfo → Bytes → Ref → Ref
bind_ref l li cursec r =
    if case_eq r.sec cursec then bind_append l li.nonblank (bind_kind l li.kind r) else r

-- Does that round drop the line?
unfoldable pub drops_line : Kind → Bytes → Ref → Bool
drops_line inert cursec r = false
drops_line (header name) cursec r = case_eq r.sec cursec && is_none r.target
drops_line (key_line key key_end com_off) cursec r =
    case_eq r.sec cursec && elim r.target [ none ↦ false | some e ↦ case_eq e.key key && e.removed ]

unfoldable pub any_drops : Kind → Bytes → List Ref → Bool
unfolding drops_line
any_drops kind cursec [] = false
any_drops kind cursec (r ∷ rs) = drops_line kind cursec r || any_drops kind cursec rs

-- `in_removed` behind a line: a header that is dropped opens a removed section.
unfoldable pub removed_after : Kind → Bool → Bytes → List Ref → Bool
unfolding any_drops
removed_after inert in_removed cursec refs = in_removed
removed_after (header name) in_removed cursec refs = any_drops (header name) cursec refs
removed_after (key_line key key_end com_off) in_removed cursec refs = in_removed

-- The loop over the lines from number `l` on, with its `drop` array.
unfoldable pub bind_lines : ℕ → Bytes → Bool → List Bytes → List Ref → List Ref × List Bool
unfolding classify_line bind_ref any_drops removed_after
bind_lines l cursec in_removed [] refs = (refs, [])
bind_lines l cursec in_removed (line ∷ lines) refs =
    let li = classify_line line in
    let cur = section_after li.kind cursec in
    let removed = removed_after li.kind in_removed cur refs in
    let rest = bind_lines (suc l) cur removed lines (map (bind_ref l li cur) refs) in
    (
      rest.0,
      (any_drops li.kind cur refs || (removed && not (is_header li.kind) && li.nonblank)) ∷ rest.1,
    )

abbrev pub leaves : Ref → Bool
leaves r = elim r.target [ none ↦ true | some e ↦ e.removed ]

-- What leaves and has no line in the file is settled.
abbrev pub settle : Ref → Ref
settle r = if leaves r && is_none r.replace_line then record r { done = true } else r

-- The blank line above a dropped header is dropped too.
unfoldable pub drop_gaps : List Bytes → List Bool → List (Bytes × Bool)
unfolding classify_line
drop_gaps (a ∷ b ∷ lines) (x ∷ y ∷ drops) =
    let ha = classify_line a in
    let hb = classify_line b in
    (a, x || (y && is_header hb.kind && not ha.nonblank)) ∷ drop_gaps (b ∷ lines) (y ∷ drops)
drop_gaps (a ∷ []) (x ∷ drops) = (a, x) ∷ []
drop_gaps _ _ = []
