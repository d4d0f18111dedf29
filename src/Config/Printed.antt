-- ===== src/Config/Printed.antt =====
-- How `rss_config_load` reads the lines that `config_write` prints (src/rss_config.c).
use mathlib.Core.List.{append_assoc}
use raptor_common.Base.{
  ℕ, ◌≤◌, true, false, ◌==◌, [], ◌∷◌, ◌++◌, none, some, length, length-append, Bytes, codes, ◌≡◌,
  refl, sym, ◌∙◌, ap, arith,
}
use raptor_common.Config.Lines.{lines, load_lines, IsPlain}
use raptor_common.Config.Load.{
  Loading, load_line, load_trimmed, load_header, load_pair, store_pair, strip_inline_comment,
}
use raptor_common.Config.Print.{entry_line, header_line}
use raptor_common.Config.Store.{on_section, add_entry}
use raptor_common.Text.Copying.{take_all}
use raptor_common.Text.{trim, trim_front, trim_back, is_space, split_at_char, strlcpy}
use raptor_common.Config.Readable.{
  starts_key, IsKey, IsValue, IsName, IsPlain-append, load_lines-line, trim_back-append,
  trim_back-space, split-append, trim_front-append, trim_value,
}

-- The trimmed line of a pair, with what stands behind its `=`.
pair_trimmed :
    (k v : Bytes)
    → IsKey k
    → IsValue v
    → (rest : Bytes) × (trim (k ++ (codes " = " ++ v)) ≡ k ++ (b' ' ∷ b'=' ∷ rest))
      × (trim rest ≡ v)
unfolding trim
pair_trimmed k [] ik iv =
    let whole : trim_front (k ++ (codes " = " ++ [])) ≡ k ++ (codes " = ") =
      trim_front-append k (codes " = ") ik.starts in
    let split : k ++ codes " = " ≡ (k ++ (b' ' ∷ b'=' ∷ [])) ++ (b' ' ∷ []) =
      sym (append_assoc k (b' ' ∷ b'=' ∷ []) (b' ' ∷ [])) in
    (
      [],
      ap trim_back whole
          ∙ ap trim_back split
          ∙ trim_back-space (k ++ (b' ' ∷ b'=' ∷ []))
          ∙ trim_back-append k b' ' (b'=' ∷ []) (unfold trim_back is_space in refl),
      unfold trim_back trim_front in refl,
    )
pair_trimmed k (c ∷ v) ik iv =
    let whole : trim_front (k ++ (codes " = " ++ (c ∷ v))) ≡ k ++ (codes " = " ++ (c ∷ v)) =
      trim_front-append k (codes " = " ++ (c ∷ v)) ik.starts in
    let tail = trim_back-append (codes " = ") c v iv.trimmed in
    (
      b' ' ∷ c ∷ v,
      ap trim_back whole ∙ trim_back-append k b' ' (b'=' ∷ b' ' ∷ c ∷ v) tail,
      trim_value (c ∷ v) iv,
    )

-- A key in front of the blank that is printed behind it.
trim_key : (k : Bytes) → IsKey k → trim (k ++ (b' ' ∷ [])) ≡ k
unfolding trim
trim_key k ik =
    ap trim_back (trim_front-append k (b' ' ∷ []) ik.starts) ∙ trim_back-space k ∙ ik.trimmed

trim_stripped : (v : Bytes) → IsValue v → trim (strip_inline_comment v) ≡ v
unfolding trim strip_inline_comment
trim_stripped v iv = rw (iv.no_comment, strip_inline_comment) (rw iv.trimmed_front iv.trimmed)

split_none :
    (c : ℕ) (s : Bytes) (d : ℕ)
    → (d == c) ≡ false
    → split_at_char c s ≡ none
    → split_at_char c (s ++ (d ∷ [])) ≡ none
unfolding split_at_char
split_none c [] d h e = ground (arith, h)
split_none c (x ∷ s) d h e = ground (arith, h, e, split_none c s d)

store_pair_key :
    (k v : Bytes) (st : Loading)
    → starts_key k ≡ true
    → store_pair k v st ≡ record st { config = (on_section st.section (add_entry k v) st.config).1 }
unfolding store_pair
store_pair_key [] v st h = absurd (ground (arith, h))
store_pair_key (c ∷ k) v st h = refl

load_pair_read :
    (k v rest : Bytes) (st : Loading)
    → IsKey k
    → IsValue v
    → trim rest ≡ v
    → load_pair (k ++ (b' ' ∷ b'=' ∷ rest)) st
      ≡ record st { config = (on_section st.section (add_entry k v) st.config).1 }
unfolding load_pair on_section
load_pair_read k v rest st ik iv e =
    let equals : split_at_char b'=' (k ++ (b' ' ∷ [])) ≡ none =
      split_none b'=' k b' ' refl ik.no_equals in
    let cut : split_at_char b'=' (k ++ (b' ' ∷ b'=' ∷ rest)) ≡ some (k ++ (b' ' ∷ []), rest) =
      ap (split_at_char b'=') (sym (append_assoc k (b' ' ∷ []) (b'=' ∷ rest)))
      ∙ split-append b'=' (k ++ (b' ' ∷ [])) rest equals in
    let bare : trim (strip_inline_comment v) ≡ v = trim_stripped v iv in
    rw (cut, load_pair) (rw (trim_key k ik) (rw e (rw bare (store_pair_key k v st ik.starts))))

load_trimmed_key :
    (k s : Bytes) (st : Loading)
    → starts_key k ≡ true
    → load_trimmed (k ++ s) st ≡ load_pair (k ++ s) st
unfolding load_trimmed
load_trimmed_key [] s st h = absurd (ground (arith, h))
load_trimmed_key (c ∷ k) s st h = ground (arith, h)

pub load_line-pair :
    (k v : Bytes) (st : Loading)
    → IsKey k
    → IsValue v
    → load_line (k ++ (codes " = " ++ v)) st
      ≡ record st { config = (on_section st.section (add_entry k v) st.config).1 }
unfolding load_line
load_line-pair k v st ik iv =
    let p = pair_trimmed k v ik iv in
    rw p.1
      (load_trimmed_key k (b' ' ∷ b'=' ∷ p.0) st ik.starts ∙ load_pair_read k v p.0 st ik iv p.2)

load_trimmed_header :
    (n : Bytes) (st : Loading)
    → load_trimmed (b'[' ∷ (n ++ (b']' ∷ []))) st ≡ load_header (n ++ (b']' ∷ [])) st
unfolding load_trimmed
load_trimmed_header n st = refl

load_header_name :
    (n : Bytes) (st : Loading)
    → IsName n
    → load_header (n ++ (b']' ∷ [])) st ≡ record st { section = n }
unfolding load_header trim strlcpy
load_header_name n st i =
    rw (split-append b']' n [] i.no_bracket, load_header)
      (rw i.trimmed_front (rw i.trimmed (rw (take_all 63 n i.fits) refl)))

pub load_line-header :
    (n : Bytes) (st : Loading)
    → IsName n
    → load_line (b'[' ∷ (n ++ (b']' ∷ []))) st ≡ record st { section = n }
unfolding load_line trim trim_front is_space
load_line-header n st i =
    let shown : trim (b'[' ∷ (n ++ (b']' ∷ []))) ≡ b'[' ∷ (n ++ (b']' ∷ [])) =
      trim_back-append (b'[' ∷ n) b']' [] (unfold trim_back is_space in refl) in
    ap (λ s. load_trimmed s st) shown ∙ load_trimmed_header n st ∙ load_header_name n st i

pub load_entry_line :
    (k v rest : Bytes) (st : Loading)
    → IsKey k
    → IsValue v
    → load_lines (lines (entry_line k v ++ rest)) st
      ≡ load_lines
          (lines rest)
          (record st { config = (on_section st.section (add_entry k v) st.config).1 })
unfolding entry_line
load_entry_line k v rest st ik iv =
    let l = k ++ (codes " = " ++ v) in
    let plain =
      IsPlain-append k (codes " = " ++ v) ik.one_line (refl, (refl, (refl, iv.one_line))) in
    let size : length l ≤ 511 =
      omega (arith, length-append k (codes " = " ++ v), ik.fits, iv.fits) in
    let shape : (k ++ (codes " = " ++ (v ++ (b'\n' ∷ [])))) ++ rest ≡ l ++ (b'\n' ∷ rest) =
      simp append_assoc refl in
    ap (λ s. load_lines (lines s) st) shape
    ∙ load_lines-line l rest st plain size
    ∙ ap (load_lines (lines rest)) (load_line-pair k v st ik iv)

pub load_header_line :
    (n rest : Bytes) (st : Loading)
    → IsName n
    → load_lines (lines (header_line n ++ rest)) st
      ≡ load_lines (lines rest) (record st { section = n })
unfolding header_line
load_header_line n rest st i =
    let l = b'[' ∷ (n ++ (b']' ∷ [])) in
    let plain : IsPlain l = (refl, IsPlain-append n (b']' ∷ []) i.one_line (refl, tt)) in
    let size : length l ≤ 511 = omega (arith, length-append n (b']' ∷ []), i.fits) in
    let shape : (b'[' ∷ (n ++ (b']' ∷ b'\n' ∷ []))) ++ rest ≡ l ++ (b'\n' ∷ rest) =
      simp append_assoc refl in
    ap (λ s. load_lines (lines s) st) shape
    ∙ load_lines-line l rest st plain size
    ∙ ap (load_lines (lines rest)) (load_line-header n st i)

pub load_blank_line :
    (rest : Bytes) (st : Loading)
    → load_lines (lines (b'\n' ∷ rest)) st ≡ load_lines (lines rest) st
unfolding lines load_lines load_line trim trim_front trim_back load_trimmed
load_blank_line rest st = refl
