-- ===== src/Config/Save.antt =====
-- `rss_config_save` (src/rss_config.c). The file system is a parameter: whether access(2) finds the
-- file, what rss_read_file reads, and whether rss_write_file_atomic returns 0 for a text. The lock
-- orders saves of several processes and changes nothing in one.
use raptor_common.Base.{
  Bool, true, false, ◌&&◌, List, [], ◌∷◌, map, Option, none, some, if◌then◌else◌, Bytes,
}
use raptor_common.Config.Emit.{surgical_text}
use raptor_common.Config.Print.{config_text}
use raptor_common.Config.Surgical.{Ref, collect_dirty}
use raptor_common.Config.Types.{Entry, Section, Config}

-- `ok` is a result of 0; `written` is the text handed over to be written, whether or not it was.
pub record Saved : Type 0 where
  pub ok : Bool
  pub config : Config
  pub written : Option Bytes

abbrev pub clear_entry : Entry → Entry
clear_entry e = record e { dirty = false }

abbrev pub clear_section : Section → Section
clear_section s = record s { dirty = false; entries = map clear_entry s.entries }

unfoldable pub clear_dirty : Config → Config
clear_dirty cfg = map clear_section cfg

abbrev pub is_clean : List Ref → Bool
is_clean [] = true
is_clean (r ∷ rs) = false

unfoldable pub new_text : Config → Option Bytes → Bytes
unfolding surgical_text config_text collect_dirty
new_text cfg none = config_text cfg
new_text cfg (some text) = surgical_text text (collect_dirty cfg)

module _ (exists : Bool) (file : Option Bytes) (writes : Bytes → Bool) where
  unfoldable pub save : Config → Saved
  unfolding new_text collect_dirty clear_dirty
  save cfg =
      let text = new_text cfg file in
      if is_clean (collect_dirty cfg) && exists
      then record { ok = true; config = cfg; written = none }
      else record {
        ok = writes text;
        config = if writes text then clear_dirty cfg else cfg;
        written = some text;
      }
