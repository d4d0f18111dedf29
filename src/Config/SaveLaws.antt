-- ===== src/Config/SaveLaws.antt =====
-- What `rss_config_save` (src/rss_config.c) does to the store.
use mathlib.Core.List.{reverse_aux}
use raptor_common.Base.{
  Bool, true, false, not, ◌&&◌, List, [], ◌∷◌, ◌++◌, map, Option, none, some, if◌then◌else◌, Bytes,
  ◌≡◌, ◌↔◌, refl, ◌∙◌, ap, arith, Bool-cases, inl, inr,
}
use raptor_common.Config.Edit.{has_dirty, any_dirty}
use raptor_common.Config.Save.{save, Saved, clear_dirty, clear_entry, is_clean, new_text}
use raptor_common.Config.Store.{lookup, lookup_entries}
use raptor_common.Config.Surgical.{Ref, collect_dirty, dirty_refs, dirty_entries, new_ref}
use raptor_common.Config.Types.{Entry, Config}

any_dirty-clear : (es : List Entry) → any_dirty (map clear_entry es) ≡ false
unfolding any_dirty
any_dirty-clear [] = refl
any_dirty-clear (e ∷ es) = any_dirty-clear es

pub has_dirty-clear : (cfg : Config) → has_dirty (clear_dirty cfg) ≡ false
unfolding has_dirty clear_dirty
has_dirty-clear [] = refl
has_dirty-clear (s ∷ cfg) = ground (arith, any_dirty-clear s.entries, has_dirty-clear cfg)

lookup_entries-clear :
    (key : Bytes) (es : List Entry)
    → lookup_entries key (map clear_entry es) ≡ lookup_entries key es
unfolding lookup_entries
lookup_entries-clear key [] = refl
lookup_entries-clear key (e ∷ es) = ground (arith, lookup_entries-clear key es)

lookup-clear :
    (name key : Bytes) (cfg : Config) → lookup name key (clear_dirty cfg) ≡ lookup name key cfg
unfolding lookup clear_dirty
lookup-clear name key [] = refl
lookup-clear name key (s ∷ cfg) =
    ground (arith, lookup_entries-clear key s.entries, lookup-clear name key cfg)

-- Nothing is collected exactly if nothing is dirty.
clean_entries :
    (sec : Bytes) (es : List Entry) → is_clean (dirty_entries sec es) ≡ not (any_dirty es)
unfolding dirty_entries any_dirty
clean_entries sec [] = refl
clean_entries sec (e ∷ es) = ground (arith, clean_entries sec es)

is_clean-append : (xs ys : List Ref) → is_clean (xs ++ ys) ≡ (is_clean xs && is_clean ys)
is_clean-append [] ys = refl
is_clean-append (x ∷ xs) ys = refl

clean_refs : (cfg : Config) → is_clean (dirty_refs cfg) ≡ not (has_dirty cfg)
unfolding dirty_refs has_dirty
clean_refs [] = refl
clean_refs (s ∷ cfg) =
    let es = dirty_entries s.name s.entries in
    let head = if s.removed && s.dirty then new_ref s.name none ∷ [] else [] in
    ground (
      arith,
      is_clean-append head (es ++ dirty_refs cfg),
      is_clean-append es (dirty_refs cfg),
      clean_entries s.name s.entries,
      clean_refs cfg,
    )

clean_reverse : (xs ys : List Ref) → is_clean (reverse_aux xs ys) ≡ (is_clean xs && is_clean ys)
clean_reverse [] ys = refl
clean_reverse (x ∷ xs) ys = clean_reverse xs (x ∷ ys) ∙ ground arith

collect_dirty_iff : (cfg : Config) → is_clean (collect_dirty cfg) ≡ not (has_dirty cfg)
unfolding collect_dirty
collect_dirty_iff cfg = clean_reverse (dirty_refs cfg) [] ∙ ground (arith, clean_refs cfg)

module _ (exists : Bool) (file : Option Bytes) (writes : Bytes → Bool) where
  pub save_clean :
      (cfg : Config)
      → exists ≡ true
      → has_dirty cfg ≡ false
      → save exists file writes cfg ≡ record { ok = true; config = cfg; written = none }
  unfolding save
  save_clean cfg e h = ground (arith, e, h, collect_dirty_iff cfg)

  pub save_done :
      (cfg : Config)
      → (exists && not (has_dirty cfg)) ≡ false
      → writes (new_text cfg file) ≡ true
      → save exists file writes cfg
        ≡ record { ok = true; config = clear_dirty cfg; written = some (new_text cfg file) }
  unfolding save
  save_done cfg h w = ground (arith, h, w, collect_dirty_iff cfg)

  pub save_failed :
      (cfg : Config)
      → (exists && not (has_dirty cfg)) ≡ false
      → writes (new_text cfg file) ≡ false
      → save exists file writes cfg
        ≡ record { ok = false; config = cfg; written = some (new_text cfg file) }
  unfolding save
  save_failed cfg h w = ground (arith, h, w, collect_dirty_iff cfg)

module _ (exists : Bool) (file : Option Bytes) (writes : Bytes → Bool) where
  again : (cfg : Config) → has_dirty cfg ≡ false → (save true file writes cfg).written ≡ none
  again cfg h = ap (λ (s : Saved). s.written) (save_clean true file writes cfg refl h)

  -- rss_config_save that succeeds leaves nothing unsaved and the file as it is at the next save, one
  -- that fails leaves the store as it was, and neither changes what any read finds. A file is
  -- written unless it exists and nothing is unsaved.
  pub save_lem :
      (cfg : Config) (name key : Bytes)
      → ((save exists file writes cfg).ok ≡ true
          → (has_dirty (save exists file writes cfg).config ≡ false)
            × ((save true file writes (save exists file writes cfg).config).written ≡ none))
        × ((save exists file writes cfg).ok ≡ false → (save exists file writes cfg).config ≡ cfg)
        × (lookup name key (save exists file writes cfg).config ≡ lookup name key cfg)
        × (((save exists file writes cfg).written ≡ none)
            ↔ ((exists && not (has_dirty cfg)) ≡ true))
  save_lem cfg name key = elim (Bool-cases (exists && not (has_dirty cfg))) [
    | inl e ↦
        let clean : has_dirty cfg ≡ false = ground (arith, e) in
        rw (save_clean exists file writes cfg (ground (arith, e)) clean)
          ((λ k. (clean, again cfg clean)), (λ k. refl), refl, ((λ k. e), (λ k. refl)))
    | inr e ↦ elim (Bool-cases (writes (new_text cfg file))) [
      | inl w ↦ rw (save_done exists file writes cfg e w) (
        (λ k. (has_dirty-clear cfg, again (clear_dirty cfg) (has_dirty-clear cfg))),
        (λ k. absurd (ground (arith, k))),
        lookup-clear name key cfg,
        ((λ k. absurd (ground (arith, k))), (λ k. absurd (ground (arith, e, k)))),
      )
      | inr w ↦ rw (save_failed exists file writes cfg e w) (
        (λ k. absurd (ground (arith, k))),
        (λ k. refl),
        refl,
        ((λ k. absurd (ground (arith, k))), (λ k. absurd (ground (arith, e, k)))),
      )
    ]
  ]
