-- ===== src/Config/Plain.antt =====
-- The text that `config_write` (src/rss_config.c) is to write, in a buffer without an end, and when
-- the buffer that it has makes no difference.
use mathlib.Core.List.{reverse, append_assoc, append-nil}
use raptor_common.Base.{
  ℕ, ◌+◌, ◌-◌, Bool, true, false, ◌||◌, List, [], ◌∷◌, ◌++◌, ◌==◌, ltb, length, Bytes, ◌≡◌, refl,
  sym, ◌∙◌, ap, arith, Bool-cases, inl, inr, take,
}
use raptor_common.Config.Print.{
  entry_line, header_line, saved_entries, Buffer, room_for, print_line, blank_line, print_header,
  print_entries, print_section, print_sections, config_text,
}
use raptor_common.Config.Types.{Entry, Section, Config}

unfoldable pub plain_entries : List Entry → Bytes
unfolding entry_line
plain_entries [] = []
plain_entries (e ∷ es) = entry_line e.key e.value ++ plain_entries es

-- The header, with a blank line between sections; the global section has none.
unfoldable pub plain_header : Bytes → Bytes → Bytes
unfolding header_line
plain_header out [] = []
plain_header [] (c ∷ name) = header_line (c ∷ name)
plain_header (b ∷ out) (c ∷ name) = b'\n' ∷ header_line (c ∷ name)

unfoldable pub plain_section : Bytes → Section → Bytes
unfolding saved_entries plain_header plain_entries
plain_section out s = elim (reverse (saved_entries s.entries)) [
  | [] ↦ out
  | e ∷ es ↦ out ++ (plain_header out s.name ++ plain_entries (e ∷ es))
]

unfoldable pub plain_sections : Bytes → List Section → Bytes
unfolding plain_section
plain_sections out [] = out
plain_sections out (s ∷ ss) = plain_sections (plain_section out s) ss

unfoldable pub plain_text : Config → Bytes
unfolding plain_sections
plain_text cfg = plain_sections [] (reverse cfg)

unfoldable pub has_nul : Bytes → Bool
has_nul [] = false
has_nul (c ∷ s) = c == 0 || has_nul s

has_nul-front : (a b : Bytes) → has_nul (a ++ b) ≡ false → has_nul a ≡ false
unfolding has_nul
has_nul-front [] b h = refl
has_nul-front (c ∷ a) b h = ground (arith, h, has_nul-front a b)

nul_there : (a b : Bytes) → has_nul (a ++ 0 ∷ b) ≡ true
unfolding has_nul
nul_there [] b = refl
nul_there (c ∷ a) b = ground (arith, nul_there a b)

-- A line that is cut leaves a NUL behind.
print_line-plain :
    (line : Bytes) (b : Buffer)
    → has_nul (print_line line b).text ≡ false
    → (print_line line b).text ≡ b.text ++ line
unfolding print_line
print_line-plain line b h = elim (Bool-cases (ltb (length line) (b.size - length b.text))) [
  | inl fits ↦ rw fits refl
  | inr cut ↦
      let nul = nul_there (b.text ++ take (b.size - length b.text - 1) line) [] in
      absurd (
        ground (
          arith,
          h,
          cut,
          nul,
          append_assoc b.text (take (b.size - length b.text - 1) line) (0 ∷ []),
        ))
]

-- Printing only adds to the text.
abbrev Adds : Bytes → Bytes → Type 0
Adds a b = (x : Bytes) × (b ≡ a ++ x)

Adds-trans : (a b c : Bytes) → Adds a b → Adds b c → Adds a c
Adds-trans a b c (x, e) (y, f) = (x ++ y, f ∙ ap (λ (s : Bytes). s ++ y) e ∙ append_assoc a x y)

Adds-no_nul : (a b : Bytes) → Adds a b → has_nul b ≡ false → has_nul a ≡ false
Adds-no_nul a b (x, e) h = has_nul-front a x (ap has_nul (sym e) ∙ h)

room_for-text : (need : ℕ) (b : Buffer) → (room_for need b).text ≡ b.text
unfolding room_for
room_for-text need b = ground arith

blank_line-Adds : (b : Buffer) → Adds b.text (blank_line b).text
unfolding blank_line
blank_line-Adds b = elim (Bool-cases (ltb 0 (length b.text))) [
  | inl behind ↦ (b'\n' ∷ [], rw behind refl)
  | inr first ↦ ([], rw (first, append-nil b.text) refl)
]

print_line-Adds : (line : Bytes) (b : Buffer) → Adds b.text (print_line line b).text
unfolding print_line
print_line-Adds line b = elim (Bool-cases (ltb (length line) (b.size - length b.text))) [
  | inl fits ↦ (line, rw fits refl)
  | inr cut ↦ (take (b.size - length b.text - 1) line ++ 0 ∷ [], rw cut refl)
]

roomy_line-Adds :
    (line : Bytes) (need : ℕ) (b : Buffer) → Adds b.text (print_line line (room_for need b)).text
roomy_line-Adds line need b =
    let (x, e) = print_line-Adds line (room_for need b) in
    (x, e ∙ ap (λ (s : Bytes). s ++ x) (room_for-text need b))

print_entries-Adds : (es : List Entry) (b : Buffer) → Adds b.text (print_entries b es).text
unfolding print_entries
print_entries-Adds [] b = ([], sym (append-nil b.text))
print_entries-Adds (e ∷ es) b =
    let need = length b.text + length e.key + length e.value + 8 in
    let b1 = print_line (entry_line e.key e.value) (room_for need b) in
    Adds-trans b.text b1.text (print_entries b1 es).text
      (roomy_line-Adds (entry_line e.key e.value) need b) (print_entries-Adds es b1)

print_header-Adds : (name : Bytes) (b : Buffer) → Adds b.text (print_header b name).text
unfolding print_header
print_header-Adds [] b = ([], sym (append-nil b.text))
print_header-Adds (c ∷ name) b =
    let need = length b.text + length (c ∷ name) + 4 in
    let b1 = room_for need b in
    let b2 = blank_line b1 in
    let (x, e) =
      Adds-trans b1.text b2.text (print_line (header_line (c ∷ name)) b2).text (blank_line-Adds b1)
        (print_line-Adds (header_line (c ∷ name)) b2) in
    (x, e ∙ ap (λ (s : Bytes). s ++ x) (room_for-text need b))

print_section-Adds : (s : Section) (b : Buffer) → Adds b.text (print_section b s).text
unfolding print_section
print_section-Adds s b = section_adds (reverse (saved_entries s.entries)) refl
  where
    section_adds :
        (q : List Entry)
        → reverse (saved_entries s.entries) ≡ q
        → Adds b.text (print_section b s).text
    section_adds [] e = rw (e, print_section) ([], sym (append-nil b.text))
    section_adds (x ∷ xs) e =
        let b1 = print_header b s.name in
        rw (e, print_section)
          (Adds-trans b.text b1.text (print_entries b1 (x ∷ xs)).text (print_header-Adds s.name b)
            (print_entries-Adds (x ∷ xs) b1))

print_sections-Adds : (ss : List Section) (b : Buffer) → Adds b.text (print_sections b ss).text
unfolding print_sections
print_sections-Adds [] b = ([], sym (append-nil b.text))
print_sections-Adds (s ∷ ss) b =
    let b1 = print_section b s in
    Adds-trans b.text b1.text (print_sections b1 ss).text (print_section-Adds s b)
      (print_sections-Adds ss b1)

-- Without a NUL in the text no line was cut.
print_entries-plain :
    (es : List Entry) (b : Buffer)
    → has_nul (print_entries b es).text ≡ false
    → (print_entries b es).text ≡ b.text ++ plain_entries es
unfolding print_entries plain_entries
print_entries-plain [] b h = sym (append-nil b.text)
print_entries-plain (e ∷ es) b h =
    let need = length b.text + length e.key + length e.value + 8 in
    let line = entry_line e.key e.value in
    let b0 = room_for need b in
    let b1 = print_line line b0 in
    let whole = Adds-no_nul b1.text (print_entries b1 es).text (print_entries-Adds es b1) h in
    let added : b1.text ≡ b.text ++ line =
      print_line-plain line b0 whole ∙ ap (λ (s : Bytes). s ++ line) (room_for-text need b) in
    print_entries-plain es b1 h
    ∙ ap (λ (s : Bytes). s ++ plain_entries es) added
    ∙ append_assoc b.text line (plain_entries es)

header_behind :
    (out name : Bytes) (size : ℕ) (c : ℕ)
    → (blank_line (record { text = out; size = size })).text ++ header_line (c ∷ name)
      ≡ out ++ plain_header out (c ∷ name)
unfolding blank_line plain_header
header_behind [] name size c = refl
header_behind (b ∷ out) name size c =
    let behind : ltb 0 (length (b ∷ out)) ≡ true = ground arith in
    rw (behind, append_assoc (b ∷ out) (b'\n' ∷ []) (header_line (c ∷ name))) refl

print_header-plain :
    (name : Bytes) (b : Buffer)
    → has_nul (print_header b name).text ≡ false
    → (print_header b name).text ≡ b.text ++ plain_header b.text name
unfolding print_header plain_header
print_header-plain [] b h = sym (append-nil b.text)
print_header-plain (c ∷ name) b h =
    let need = length b.text + length (c ∷ name) + 4 in
    let b1 = room_for need b in
    print_line-plain (header_line (c ∷ name)) (blank_line b1) h
    ∙ header_behind b1.text name b1.size c
    ∙ ap (λ (s : Bytes). s ++ plain_header s (c ∷ name)) (room_for-text need b)

print_section-plain :
    (s : Section) (b : Buffer)
    → has_nul (print_section b s).text ≡ false
    → (print_section b s).text ≡ plain_section b.text s
unfolding print_section plain_section
print_section-plain s b h = section_plain (reverse (saved_entries s.entries)) refl
  where
    section_plain :
        (q : List Entry)
        → reverse (saved_entries s.entries) ≡ q
        → (print_section b s).text ≡ plain_section b.text s
    section_plain [] e = rw (e, print_section, plain_section) refl
    section_plain (x ∷ xs) e =
        let b1 = print_header b s.name in
        let k : has_nul (print_entries b1 (x ∷ xs)).text ≡ false = rw (e, print_section) at h in
        let whole =
          Adds-no_nul b1.text (print_entries b1 (x ∷ xs)).text (print_entries-Adds (x ∷ xs) b1) k in
        rw (e, print_section, plain_section)
          (print_entries-plain (x ∷ xs) b1 k
            ∙ ap (λ (t : Bytes). t ++ plain_entries (x ∷ xs)) (print_header-plain s.name b whole)
            ∙ append_assoc b.text (plain_header b.text s.name) (plain_entries (x ∷ xs)))

print_sections-plain :
    (ss : List Section) (b : Buffer)
    → has_nul (print_sections b ss).text ≡ false
    → (print_sections b ss).text ≡ plain_sections b.text ss
unfolding print_sections plain_sections
print_sections-plain [] b h = refl
print_sections-plain (s ∷ ss) b h =
    let b1 = print_section b s in
    let whole = Adds-no_nul b1.text (print_sections b1 ss).text (print_sections-Adds ss b1) h in
    print_sections-plain ss b1 h
    ∙ ap (λ (t : Bytes). plain_sections t ss) (print_section-plain s b whole)

-- A text without a NUL is the one that was to be written.
pub config_text-plain :
    (cfg : Config) → has_nul (config_text cfg) ≡ false → config_text cfg ≡ plain_text cfg
unfolding config_text plain_text
config_text-plain cfg h = print_sections-plain (reverse cfg) (record { text = []; size = 4096 }) h
