-- ===== src/Vui/Twice.antt =====
-- What a committed edit of src/rss_vui.c did, and that the same edit has nothing to do afterwards.
use raptor_common.Base.{
  ℕ, ◌+◌, ◌*◌, ◌<◌, Bool, ◌++◌, Option, none, some, length, Bytes, ◌≡◌, ◌≢◌, refl, sym, ◌∙◌, ap,
  arith, Option-cases, inl, inr,
}
use raptor_common.Vui.Walk.{run, Found, at_bit, found_at}
use raptor_common.Vui.Local.{run-local}
use raptor_common.Vui.Escape.{unescape, escape, unescape-escape, length-unescape}
use raptor_common.Vui.Edit.{
  at, change, Change, keep, refuse, write, commit, unchanged, edited, rbsp_max, full_range, edit_at,
  edit_payload,
}
use raptor_common.Vui.Settled.{change-Settles, found_at_bit, Fits}

abbrev pub rbsp_of : Bytes → Bytes
rbsp_of payload = unescape rbsp_max payload

module _ (shift32 : ℕ) (is_h265 : Bool) where
  -- The flag that the walk finds in a payload.
  abbrev pub flag_found : Bytes → Found
  flag_found payload = found_at (run (rbsp_of payload) (full_range shift32 is_h265) (at 0))

  -- How an edit of a payload comes to be committed: the payload `esc` takes its place.
  pub record Commits (payload : Bytes) (matrix : Option ℕ) (esc : Bytes) : Type 0 where
    pub bit : ℕ
    pub found : flag_found payload ≡ at_bit bit
    pub inside : bit < length (rbsp_of payload) * 8
    pub changed : change (rbsp_of payload) bit matrix ≡ write (rbsp_of esc)
    pub same_length : length esc ≡ length payload

  commits_escaped :
      (front payload rbsp esc nal' : Bytes)
      → escape (rbsp_max + 64) rbsp ≡ some esc
      → commit front payload (write rbsp) ≡ edited nal'
      → (nal' ≡ front ++ esc) × (length esc ≡ length payload)
  unfolding commit
  commits_escaped front payload rbsp esc nal' e h = ground (arith, e, h)

  commits_refused :
      (front payload rbsp nal' : Bytes)
      → escape (rbsp_max + 64) rbsp ≡ none
      → commit front payload (write rbsp) ≢ edited nal'
  unfolding commit
  commits_refused front payload rbsp nal' e h = absurd (ground (arith, e, h))

  change-Commits :
      (front payload nal' : Bytes) (matrix : Option ℕ) (bit : ℕ) (c : Change)
      → Fits matrix
      → flag_found payload ≡ at_bit bit
      → bit < length (rbsp_of payload) * 8
      → change (rbsp_of payload) bit matrix ≡ c
      → commit front payload c ≡ edited nal'
      → (esc : Bytes) × (nal' ≡ front ++ esc) × Commits payload matrix esc
  change-Commits front payload nal' matrix bit keep hm k p e h =
      absurd (unfold commit in ground (arith, h))
  change-Commits front payload nal' matrix bit refuse hm k p e h =
      absurd (unfold commit in ground (arith, h))
  change-Commits front payload nal' matrix bit (write rbsp) hm k p e h =
      elim (Option-cases (escape (rbsp_max + 64) rbsp)) [
        | inl n ↦ absurd (commits_refused front payload rbsp nal' n h)
        | inr (esc, q) ↦
            let parts = commits_escaped front payload rbsp esc nal' q h in
            let s = change-Settles (rbsp_of payload) rbsp bit matrix hm p e in
            let back : rbsp_of esc ≡ rbsp =
              unescape-escape rbsp (rbsp_max + 64) rbsp_max
                (omega (arith, s.same_length, length-unescape rbsp_max payload)) q in
            (
              esc,
              parts.0,
              record {
                bit = bit;
                found = k;
                inside = p;
                changed = e ∙ ap write (sym back);
                same_length = parts.1;
              },
            )
      ]

  found-Commits :
      (front payload nal' : Bytes) (matrix : Option ℕ) (f : Found)
      → Fits matrix
      → flag_found payload ≡ f
      → edit_at shift32 front payload (rbsp_of payload) matrix f ≡ edited nal'
      → (esc : Bytes) × (nal' ≡ front ++ esc) × Commits payload matrix esc
  unfolding edit_at
  found-Commits front payload nal' matrix Found.absent hm k h = absurd (ground (arith, h))
  found-Commits front payload nal' matrix Found.bad hm k h = absurd (ground (arith, h))
  found-Commits front payload nal' matrix (at_bit bit) hm k h =
      let inside : bit < length (rbsp_of payload) * 8 = ground (arith, h) in
      let rest : commit front payload (change (rbsp_of payload) bit matrix) ≡ edited nal' =
        ground (arith, h) in
      change-Commits front payload nal' matrix bit (change (rbsp_of payload) bit matrix) hm k inside
        refl rest

  pub edit_payload-Commits :
      (front payload nal' : Bytes) (matrix : Option ℕ)
      → Fits matrix
      → edit_payload shift32 front payload is_h265 matrix ≡ edited nal'
      → (esc : Bytes) × (nal' ≡ front ++ esc) × Commits payload matrix esc
  unfolding edit_payload
  edit_payload-Commits front payload nal' matrix hm h =
      found-Commits front payload nal' matrix (flag_found payload) hm refl h

  pub Commits-again :
      (front payload esc : Bytes) (matrix : Option ℕ)
      → Fits matrix
      → Commits payload matrix esc
      → edit_payload shift32 front esc is_h265 matrix ≡ unchanged
  unfolding edit_payload edit_at commit
  Commits-again front payload esc matrix hm c =
      let s = change-Settles (rbsp_of payload) (rbsp_of esc) c.bit matrix hm c.inside c.changed in
      let stop =
        found_at_bit (run (rbsp_of payload) (full_range shift32 is_h265) (at 0)) c.bit c.found in
      let again =
        run-local (rbsp_of payload) (rbsp_of esc) (full_range shift32 is_h265) (at 0) s.same_length
          (λ i p. s.same_before i (omega (arith, stop))) in
      let found' : flag_found esc ≡ at_bit c.bit = ap found_at again ∙ c.found in
      rw found' (ground (arith, s.settled, s.same_length, c.inside))
