-- ===== src/Shadow/Hash.antt =====
-- Which fields of a password file src/rss_shadow.c takes for a hash, and what it hands out.
use raptor_common.Base.{
  ℕ, zero, suc, ◌+◌, ◌<◌, true, false, not, [], ◌∷◌, ◌++◌, some, ◌≡◌, refl, ap, ◌∙◌, arith, leb,
  ◌==◌, length, Bytes, Bool-cases, Option-cases, inl, inr,
}
use raptor_common.Text.{strlcpy}
use raptor_common.Text.Copying.{strlcpy_fits}
use raptor_common.Shadow.Field.{lines_fit, IsFieldOf, passwd_field-IsFieldOf}
use raptor_common.Shadow.{
  set, count_dollars, usable_hash, contains, passwd_field, shadow_state, shadow_hash,
}

count_dollars-part :
    (part rest : Bytes) (n : ℕ) (behind : Bytes)
    → contains b'$' part ≡ false
    → count_dollars (part ++ b'$' ∷ rest) n behind ≡ count_dollars rest (n + 1) rest
unfolding count_dollars contains
count_dollars-part [] rest n behind h = refl
count_dollars-part (c ∷ part) rest n behind h =
    let e : (c == b'$') ≡ false = ground arith in
    rw (count_dollars, e) (count_dollars-part part rest n behind (ground arith))

count_dollars-none :
    (part : Bytes) (n : ℕ) (behind : Bytes)
    → contains b'$' part ≡ false
    → count_dollars part n behind ≡ (n, behind)
unfolding count_dollars contains
count_dollars-none [] n behind h = refl
count_dollars-none (c ∷ part) n behind h =
    let e : (c == b'$') ≡ false = ground arith in
    rw (count_dollars, e) (count_dollars-none part n behind (ground arith))

-- A field of the form "$id$salt$digest", its parts without dollars, is usable exactly if the digest
-- is not empty.
pub usable_hash-parts :
    (id salt digest : Bytes)
    → contains b'$' id ≡ false
    → contains b'$' salt ≡ false
    → contains b'$' digest ≡ false
    → usable_hash (b'$' ∷ (id ++ b'$' ∷ (salt ++ b'$' ∷ digest))) ≡ not (length digest == 0)
unfolding usable_hash
usable_hash-parts id salt digest p q r =
    let tail3 : Bytes = b'$' ∷ digest in
    let tail2 : Bytes = b'$' ∷ (salt ++ tail3) in
    let s : Bytes = id ++ tail2 in
    let first : count_dollars (b'$' ∷ s) 0 s ≡ count_dollars (salt ++ tail3) 2 (salt ++ tail3) =
      unfold count_dollars in count_dollars-part id (salt ++ tail3) 1 s p in
    let counted : count_dollars (b'$' ∷ s) 0 s ≡ (3, digest) =
      first
      ∙ count_dollars-part salt digest 2 (salt ++ tail3) q
      ∙ count_dollars-none digest 3 digest r in
    rw counted refl

filled : (f : Bytes) → usable_hash f ≡ true → (length f == 0) ≡ false
unfolding usable_hash
filled [] h = absurd (ground arith)
filled (c ∷ f) h = ground arith

copied_whole : (f : Bytes) (outsz : ℕ) → length f < outsz → (strlcpy [] (some f) outsz).0 ≡ f
copied_whole f zero h = absurd (omega arith)
copied_whole f (suc n) h = strlcpy_fits [] f n (omega arith)

-- In a file whose lines have at most 510 bytes, what rss_shadow_hash hands out stands in a line that
-- starts with the user and a colon, from there to the next colon or the end of the line, not cut;
-- and rss_shadow_state says that it is set.
pub shadow_hash_sound :
    (text user : Bytes) (outsz : ℕ) (out : Bytes)
    → lines_fit 510 510 text ≡ true
    → shadow_hash (some text) user outsz ≡ some out
    → IsFieldOf user out text × (shadow_state (some text) user ≡ set) × (length out < outsz)
unfolding shadow_hash shadow_state
shadow_hash_sound text user outsz out fits h =
    elim (Option-cases (passwd_field (some text) user 512)) [
      | inl miss ↦ absurd (ground arith)
      | inr (f, hit) ↦ elim (Bool-cases (usable_hash f)) [
        | inl usable ↦ elim (Bool-cases (leb outsz (length f))) [
          | inl long ↦ absurd (ground arith)
          | inr short ↦
              let l : length f < outsz = ground arith in
              let whole = copied_whole f outsz l in
              let some_bytes = filled f usable in
              let handed : f ≡ out = ground arith in
              let is_set : shadow_state (some text) user ≡ set = ground arith in
              (
                passwd_field-IsFieldOf user text out fits (hit ∙ ap some handed),
                is_set,
                rw handed at l,
              )
        ]
        | inr unusable ↦ absurd (ground arith)
      ]
    ]
