-- ===== src/Config/Machine.antt =====
-- The store of src/rss_config.c as a machine, and the map that it stands for: what reads find, as
-- a function of section and key.
use mathlib.Core.Path.{fun_ext}
use raptor_common.Base.{
  ◌≤◌, ◌&&◌, List, [], ◌∷◌, Option, none, some, ◌≡◌, refl, ◌∙◌, ap, if◌then◌else◌, length, Bytes,
}
use raptor_common.Config.Edit.{set_str, unset, remove_section}
use raptor_common.Config.Invariant.{
  set_str-IsTidy, get_str-IsTidy, unset_in-IsTidy, remove_section-IsTidy,
}
use raptor_common.Config.Lookup.{clip}
use raptor_common.Config.Reads.{lookup-get_str}
use raptor_common.Config.Removal.{lookup-unset, lookup-remove_section}
use raptor_common.Config.Store.{sec_name, lookup, get_str}
use raptor_common.Config.Types.{Config}
use raptor_common.Config.Unique.{IsTidy}
use raptor_common.Config.Writes.{lookup-set_str}
use raptor_common.Text.{case_eq}

-- A call of the API that may change the store.
pub data Op : Type 0 where
  set : Option Bytes → Bytes → Bytes → Op
  get : Option Bytes → Bytes → Option Bytes → Op
  drop : Option Bytes → Bytes → Op
  remove : Option Bytes → Op

-- Its names fit their buffers.
abbrev pub Fits : Op → Type 0
Fits (set section key value) = (length (sec_name section) ≤ 63) × (length key ≤ 63)
Fits (get section key default) = (length (sec_name section) ≤ 63) × (length key ≤ 63)
Fits (drop section key) = Unit
Fits (remove section) = Unit

abbrev pub AllFit : List Op → Type 0
AllFit [] = Unit
AllFit (o ∷ os) = Fits o × AllFit os

abbrev pub step : Op → Config → Config
step (set section key value) cfg = set_str cfg section key value
step (get section key default) cfg = (get_str cfg section key default).1
step (drop section key) cfg = (unset cfg section key).1
step (remove section) cfg = (remove_section cfg section).1

unfoldable pub run : List Op → Config → Config
run [] cfg = cfg
run (o ∷ os) cfg = run os (step o cfg)

abbrev pub View : Type 0
View = Bytes → Bytes → Option Bytes

abbrev pub view : Config → View
view cfg n j = lookup n j cfg

-- The same calls on the map: sections and keys count up to case, reads change nothing.
abbrev pub spec_step : Op → View → View
spec_step (set none key value) v n j = v n j
spec_step (set (some []) key value) v n j = v n j
spec_step (set (some (c ∷ name)) key value) v n j =
    if case_eq (c ∷ name) n && case_eq key j then some (clip value) else v n j
spec_step (get section key default) v n j = v n j
spec_step (drop section key) v n j =
    if case_eq (sec_name section) n && case_eq key j then none else v n j
spec_step (remove none) v n j = v n j
spec_step (remove (some [])) v n j = v n j
spec_step (remove (some (c ∷ name))) v n j = if case_eq (c ∷ name) n then none else v n j

unfoldable pub spec_run : List Op → View → View
spec_run [] v = v
spec_run (o ∷ os) v = spec_run os (spec_step o v)

step-IsTidy : (o : Op) (cfg : Config) → Fits o → IsTidy cfg → IsTidy (step o cfg)
step-IsTidy (set section key value) cfg f t = set_str-IsTidy cfg section key value f.0 f.1 t
step-IsTidy (get section key default) cfg f t = get_str-IsTidy cfg section key default f.0 f.1 t
step-IsTidy (drop section key) cfg f t =
    unfold unset in unset_in-IsTidy (sec_name section) key cfg t
step-IsTidy (remove section) cfg f t = remove_section-IsTidy cfg section t

-- Any sequence of calls whose names fit keeps the store tidy: no two sections and no two keys of
-- a section agree up to case, and a removed section shows nothing.
pub run-IsTidy : (os : List Op) (cfg : Config) → AllFit os → IsTidy cfg → IsTidy (run os cfg)
unfolding run
run-IsTidy [] cfg f t = t
run-IsTidy (o ∷ os) cfg f t = run-IsTidy os (step o cfg) f.1 (step-IsTidy o cfg f.0 t)

view-step :
    (o : Op) (cfg : Config) (n j : Bytes)
    → Fits o
    → IsTidy cfg
    → view (step o cfg) n j ≡ spec_step o (view cfg) n j
view-step (set none key value) cfg n j f t = unfold set_str in refl
view-step (set (some []) key value) cfg n j f t = unfold set_str in refl
view-step (set (some (c ∷ name)) key value) cfg n j f t =
    lookup-set_str cfg (c ∷ name) key value n j (λ h. cc) f.0 f.1
view-step (get section key default) cfg n j f t = lookup-get_str cfg section key default n j
view-step (drop section key) cfg n j f t = (lookup-unset cfg section key n j t).1
view-step (remove none) cfg n j f t = unfold remove_section in refl
view-step (remove (some [])) cfg n j f t = unfold remove_section in refl
view-step (remove (some (c ∷ name))) cfg n j f t =
    lookup-remove_section cfg (c ∷ name) n j (λ h. cc) t

-- The store refines the map: after any sequence of calls whose names fit, from a tidy store, reads
-- find in every section and under every key what the same calls leave in the map.
pub view-run :
    (os : List Op) (cfg : Config)
    → AllFit os
    → IsTidy cfg
    → view (run os cfg) ≡ spec_run os (view cfg)
unfolding run spec_run
view-run [] cfg f t = refl
view-run (o ∷ os) cfg f t =
    view-run os (step o cfg) f.1 (step-IsTidy o cfg f.0 t)
    ∙ ap (spec_run os) (fun_ext λ n. fun_ext λ j. view-step o cfg n j f.0 t)
