-- ===== src/Tests/Saves.antt =====
-- Saves of a configuration at concrete inputs.
use raptor_common.Base.{
  Bool, true, false, not, ◌&&◌, List, [], ◌∷◌, ◌++◌, none, some, Bytes, codes, ◌≡◌, ◌↔◌, refl,
  arith,
}
use raptor_common.Config.Types.{Config, Entry}
use raptor_common.Config.Edit.{has_dirty}
use raptor_common.Config.Load.{find_comment, cut_blanks}
use raptor_common.Config.Print.{
  print_header, print_line, room_for, blank_line, header_line, config_text, saved_entries,
}
use raptor_common.Config.Readable.{IsName}
use raptor_common.Config.Reload.{IsWritable, IsPrintable}
use raptor_common.Config.Save.{save, new_text}
use raptor_common.Config.SaveLaws.{save_lem}
use raptor_common.Config.Store.{lookup}
use raptor_common.Config.Unique.{IsTidy}
use raptor_common.Text.{trim_front, trim_back, is_space, split_at_char, case_eq, str_eq, lower}

-- Lines, each ended by a newline.
abbrev text_of : List Bytes → Bytes
text_of [] = []
text_of (l ∷ ls) = l ++ (b'\n' ∷ text_of ls)

abbrev pub entry : Bytes → Bytes → Bool → Bool → Entry
entry key value dirty removed = record {
  key = key;
  value = value;
  dirty = dirty;
  defaulted = false;
  removed = removed;
}

-- Two writes, an unset key and a section that is new.
abbrev changed : Config
changed =
    record {
      name = codes "net";
      removed = false;
      dirty = false;
      entries = entry (codes "port") (codes "80") true false ∷ [];
    }
    ∷ record {
      name = codes "audio";
      removed = false;
      dirty = false;
      entries = entry (codes "rate") (codes "8000") true true ∷ [];
    }
    ∷ record {
      name = codes "video";
      removed = false;
      dirty = false;
      entries =
          entry (codes "codec") (codes "h265") true false
          ∷ entry (codes "fps") (codes "30") true false
          ∷ [];
    }
    ∷ []

abbrev file : Bytes
file = text_of (
    codes "# cameras"
    ∷ codes "[VIDEO]"
    ∷ codes "fps = 25  # frames"
    ∷ codes "size = big"
    ∷ codes ""
    ∷ codes "[audio]"
    ∷ codes "rate = 8000"
    ∷ [])

abbrev edited : Bytes
edited = text_of (
    codes "# cameras"
    ∷ codes "[VIDEO]"
    ∷ codes "fps = 30  # frames"
    ∷ codes "size = big"
    ∷ codes "codec = h265"
    ∷ codes ""
    ∷ codes "[audio]"
    ∷ codes ""
    ∷ codes "[net]"
    ∷ codes "port = 80"
    ∷ [])

save_edits : new_text changed (some file) ≡ edited
unfolding new_text trim_front trim_back is_space split_at_char case_eq str_eq lower find_comment
    cut_blanks
save_edits = refl

save_whole :
    config_text changed
    ≡ text_of (
        codes "[video]"
        ∷ codes "fps = 30"
        ∷ codes "codec = h265"
        ∷ codes ""
        ∷ codes "[net]"
        ∷ codes "port = 80"
        ∷ [])
unfolding config_text
save_whole = refl

written : (save true (some file) (λ t. true) changed).written ≡ some edited
unfolding save trim_front trim_back is_space split_at_char case_eq str_eq lower find_comment
    cut_blanks
written = refl

save_example :
    ((save true (some file) (λ t. true) changed).ok ≡ true
      → (has_dirty (save true (some file) (λ t. true) changed).config ≡ false)
        × ((save true
              (some file)
              (λ t. true)
              (save true (some file) (λ t. true) changed).config).written
            ≡ none))
    × ((save true (some file) (λ t. true) changed).ok ≡ false
        → (save true (some file) (λ t. true) changed).config ≡ changed)
    × (lookup (codes "video") (codes "fps") (save true (some file) (λ t. true) changed).config
        ≡ lookup (codes "video") (codes "fps") changed)
    × (((save true (some file) (λ t. true) changed).written ≡ none)
        ↔ ((true && not (has_dirty changed)) ≡ true))
save_example = save_lem true (some file) (λ t. true) changed (codes "video") (codes "fps")

-- One section with an entry to print and one to leave out.
abbrev pub store : Config
store =
    record {
      name = codes "video";
      removed = false;
      dirty = false;
      entries =
          entry (codes "fps") (codes "30") true false
          ∷ entry (codes "size") (codes "1") true true
          ∷ [];
    }
    ∷ []

fps_IsWritable : IsWritable (entry (codes "fps") (codes "30") true false)
unfolding trim_front trim_back is_space split_at_char find_comment
fps_IsWritable = record {
  key = record {
    starts = refl;
    trimmed = refl;
    no_equals = refl;
    one_line = (refl, (refl, (refl, tt)));
    fits = omega arith;
  };
  value = record {
    trimmed_front = refl;
    trimmed = refl;
    no_comment = refl;
    one_line = (refl, (refl, tt));
    fits = omega arith;
  };
}

video_IsName : IsName (codes "video")
unfolding trim_front trim_back is_space split_at_char
video_IsName = record {
  trimmed_front = refl;
  trimmed = refl;
  no_bracket = refl;
  one_line = (refl, (refl, (refl, (refl, (refl, tt)))));
  fits = omega arith;
}

pub store-IsTidy : IsTidy store
unfolding case_eq str_eq lower
store-IsTidy = (tt, record { keys = ((refl, tt), (tt, tt)); hidden = λ e. cc }, tt)

pub store-IsPrintable : IsPrintable store
unfolding saved_entries
store-IsPrintable = ((λ h. cc), video_IsName, (fps_IsWritable, tt), tt)

-- A header that ends where the buffer does loses its newline.
header_cut :
    (print_header (record { text = codes "k = v"; size = 10 }) (codes "a")).text
    ≡ codes "k = v\n[a]" ++ 0 ∷ []
unfolding print_header print_line room_for blank_line header_line
header_cut = refl
