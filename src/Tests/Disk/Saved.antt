-- ===== src/Tests/Disk/Saved.antt =====
-- Saves of a configuration to the disk in memory.
use raptor_common.Base.{◌+◌, ◌<◌, [], none, some, length, Bytes, codes, ◌≡◌, refl, sym, arith}
use raptor_common.Config.Classify.{
  is_nonblank, classify_pair, classify_header, classify_trimmed, classify_line,
}
use raptor_common.Config.Emit.{
  emit_where, find_rep, mark_rep, replaced_line, emit_old, emit_lines, wants_gap, new_sections,
  surgical_text,
}
use raptor_common.Config.Lines.{lines}
use raptor_common.Config.Surgical.{
  dirty_entries, dirty_refs, collect_dirty, bind_ref, drops_line, any_drops, removed_after,
  bind_lines, drop_gaps,
}
use raptor_common.Config.Load.{cut_blanks, find_comment}
use raptor_common.Config.OnDisk.{disk_save, locked}
use raptor_common.Config.Persisted.{Persisted, IsReadable, disk_save-Persisted}
use raptor_common.Config.Print.{
  config_text, print_sections, print_section, print_header, print_entries, print_line, room_for,
  blank_line, saved_entries, entry_line, header_line,
}
use raptor_common.Config.Save.{new_text}
use raptor_common.Text.{
  str_eq, case_eq, fold_case, trim, trim_front, trim_back, is_space, split_at_char, lower,
}
use raptor_common.FileIo.{contents, read_file, read_loop}
use raptor_common.FileIo.Reading.{SizeFits}
use raptor_common.Tests.Disk.{Disk, at, put, put_same, disk, disk-Lawful}
use raptor_common.Tests.Saves.{store}

abbrev path : Bytes
path = codes "/etc/c"

abbrev empty : Disk
empty = at (λ q. none) [] none 1

printed_length : length (config_text store) ≡ 17
unfolding config_text print_sections print_section print_header print_entries saved_entries
    entry_line header_line print_line room_for blank_line
printed_length = refl

enough :
    length (config_text store)
      + disk-Lawful.patience (read_file disk 99 path (locked disk path empty).1).1
    < 99
unfolding disk-Lawful read_file read_loop locked str_eq
enough = rw printed_length (omega arith)

-- The file is there, with another section.
abbrev present : Disk
present = at (put path (some (codes "[a]\nk = v\n")) (λ q. none)) [] none 1

present_read :
    (read_file disk 99 path (locked disk path present).1).0 ≡ contents (codes "[a]\nk = v\n")
unfolding disk-Lawful read_file read_loop locked str_eq
present_read = refl

present-SizeFits : SizeFits disk disk-Lawful path (locked disk path present).1
unfolding disk-Lawful locked str_eq
present-SizeFits fd size e =
    let same : some 10 ≡ some size = e in let shown : 10 ≡ size = cc in omega (arith, shown)

present-IsReadable :
    (bytes : Bytes)
    → disk-Lawful.file path present ≡ some bytes
    → IsReadable disk disk-Lawful 99 path store present bytes
unfolding disk-Lawful locked str_eq
present-IsReadable bytes e =
    let same : some (codes "[a]\nk = v\n") ≡ some bytes = e in
    let shown : codes "[a]\nk = v\n" ≡ bytes = cc in
    rw (sym shown) (record {
      short = omega arith;
      enough = omega arith;
      succeeds = λ h. absurd (ground (arith, present_read, h));
    })

new_length : length (new_text store (some (codes "[a]\nk = v\n"))) ≡ 28
unfolding new_text surgical_text collect_dirty dirty_refs dirty_entries lines bind_lines drop_gaps
    emit_lines emit_old emit_where new_sections find_rep mark_rep replaced_line header_line
    entry_line wants_gap drops_line any_drops classify_line is_nonblank classify_pair
    classify_header classify_trimmed bind_ref removed_after case_eq fold_case str_eq trim trim_front
    trim_back is_space split_at_char lower find_comment cut_blanks
new_length = refl

enough_to_write :
    length (new_text store (disk-Lawful.file path present))
      + disk-Lawful.patience (read_file disk 99 path (locked disk path present).1).1
    < 99
unfolding disk-Lawful read_file read_loop locked str_eq new_text
enough_to_write = rw new_length (omega arith)

disk_save-Persisted_example :
    Persisted disk disk-Lawful 99 path store present (disk_save disk 99 path store present)
disk_save-Persisted_example =
    disk_save-Persisted disk disk-Lawful 99 path store present (omega arith) present-SizeFits
      (λ p d. unfold disk-Lawful in put_same p none d.file) present-IsReadable enough_to_write
