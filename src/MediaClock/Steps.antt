-- ===== src/MediaClock/Steps.antt =====
-- How far a call of `rss_media_clock_map` (src/rss_media_clock.c) moves the offset and the window.
use raptor_common.Base.Int.{
  ℤ, pos, negsuc, pos_part, neg_part, ◌+ℤ◌, ◌-ℤ◌, ◌≤ℤ◌, ltb_ℤ, quot_ℤ, eq_of_parts, +ℤ_parts,
  -ℤ_parts,
}
use raptor_common.Base.{
  ℕ, zero, suc, ◌-◌, ◌*◌, ◌≤◌, ◌<◌, true, ◌≡◌, refl, ap, sym, get_or, ◌∙◌, arith, Bool-cases, inl,
  inr, leb,
}
use raptor_common.MediaClock.{
  Clock, int64_max, bucket_us, buckets, clamp, follow, take_sample, advance_loop, advance_by,
  advance_window, map_time, median, is_empty_bucket,
}

-- `b` is at most `d` away from `a`.
abbrev pub IsNear : ℕ → ℤ → ℤ → Type 0
IsNear d a b = (b ≤ℤ (a +ℤ pos d)) × (a ≤ℤ (b +ℤ pos d))

clamp_bounds : (s : ℤ) → (clamp s ≤ℤ pos 1000) × (negsuc 999 ≤ℤ clamp s)
clamp_bounds s = ground arith

IsNear-sum : (a s : ℤ) → s ≤ℤ pos 1000 → negsuc 999 ≤ℤ s → IsNear 1000 a (a +ℤ s)
IsNear-sum a s h l = (
  omega (arith, +ℤ_parts a s, +ℤ_parts a (pos 1000)),
  omega (arith, +ℤ_parts a s, +ℤ_parts (a +ℤ s) (pos 1000)),
)

IsNear-self : (a : ℤ) → IsNear 1000 a a
IsNear-self a = (omega (arith, +ℤ_parts a (pos 1000)), omega (arith, +ℤ_parts a (pos 1000)))

IsNear-from : (a a' b : ℤ) → a' ≡ a → IsNear 1000 a' b → IsNear 1000 a b
IsNear-from a a' b e h = rw e at h

follow-IsNear : (c : Clock) → IsNear 1000 c.offset_us (follow c).offset_us
unfolding follow
follow-IsNear c = elim (Bool-cases (is_empty_bucket (median c.bucket_min_us))) [
  | inl none_filled ↦ rw none_filled (IsNear-self c.offset_us)
  | inr filled ↦
      let ewma =
        c.err_ewma_us +ℤ quot_ℤ ((median c.bucket_min_us -ℤ c.offset_us) -ℤ c.err_ewma_us) 16 in
      let s = clamp (quot_ℤ ewma 16) in
      rw filled (
        IsNear-sum c.offset_us s (clamp_bounds (quot_ℤ ewma 16)).0
          (clamp_bounds (quot_ℤ ewma 16)).1)
]

-- Bucket of the clock that `now` falls into: less than a bucket of time has passed in it.
pub record IsCurrent (now : ℤ) (c : Clock) : Type 0 where
  pub passed : ℕ
  pub short : passed < bucket_us
  pub sum : now ≡ c.bucket_start_us +ℤ pos passed

later :
    (now start : ℤ) (elapsed : ℕ)
    → bucket_us ≤ elapsed
    → now ≡ start +ℤ pos elapsed
    → now ≡ (start +ℤ pos bucket_us) +ℤ pos (elapsed - bucket_us)
later now start elapsed h e =
    eq_of_parts now ((start +ℤ pos bucket_us) +ℤ pos (elapsed - bucket_us)) (
      omega (
        arith,
        +ℤ_parts start (pos bucket_us),
        +ℤ_parts (start +ℤ pos bucket_us) (pos (elapsed - bucket_us)),
        +ℤ_parts start (pos elapsed),
        ap pos_part e,
        ap neg_part e,
      ))

-- The loop's rounds are enough: it ends in the bucket of the time that has passed.
advance_loop-IsCurrent :
    (fuel elapsed : ℕ) (c : Clock) (now : ℤ)
    → elapsed < bucket_us * suc fuel
    → now ≡ c.bucket_start_us +ℤ pos elapsed
    → ((advance_loop fuel elapsed c).offset_us ≡ c.offset_us)
      × IsCurrent now (advance_loop fuel elapsed c)
unfolding advance_loop
advance_loop-IsCurrent zero elapsed c now h e =
    (refl, record { passed = elapsed; short = omega arith; sum = e })
advance_loop-IsCurrent (suc fuel) elapsed c now h e = elim (Bool-cases (leb bucket_us elapsed)) [
  | inl on ↦ rw on (
      advance_loop-IsCurrent fuel (elapsed - bucket_us) _ now (ground arith)
        (later now c.bucket_start_us elapsed (ground arith) e))
  | inr stop ↦ rw stop (refl, record { passed = elapsed; short = ground arith; sum = e })
]

restart-sum : (now : ℤ) → now ≡ now +ℤ pos 0
restart-sum now = eq_of_parts now (now +ℤ pos 0) (omega (arith, +ℤ_parts now (pos 0)))

advance_by-IsCurrent :
    (c : Clock) (now d : ℤ)
    → now ≡ c.bucket_start_us +ℤ d
    → ((advance_by c now d).offset_us ≡ c.offset_us) × IsCurrent now (advance_by c now d)
unfolding advance_by
advance_by-IsCurrent c now (negsuc n) e =
    (refl, record { passed = 0; short = omega arith; sum = restart-sum now })
advance_by-IsCurrent c now (pos elapsed) e = elim (Bool-cases (leb (bucket_us * buckets) elapsed)) [
  | inl far ↦ rw far (refl, record { passed = 0; short = omega arith; sum = restart-sum now })
  | inr close ↦ rw close (advance_loop-IsCurrent buckets elapsed c now (ground arith) e)
]

difference-sum : (now start : ℤ) → now ≡ start +ℤ (now -ℤ start)
difference-sum now start =
    eq_of_parts now (start +ℤ (now -ℤ start))
      (omega (arith, -ℤ_parts now start, +ℤ_parts start (now -ℤ start)))

advance_window-IsCurrent :
    (c : Clock) (now : ℤ)
    → ((advance_window c now).offset_us ≡ c.offset_us) × IsCurrent now (advance_window c now)
unfolding advance_window
advance_window-IsCurrent c now =
    advance_by-IsCurrent c now (now -ℤ c.bucket_start_us) (difference-sum now c.bucket_start_us)

take_sample-kept :
    (c : Clock) (sample : ℤ)
    → ((take_sample c sample).offset_us ≡ c.offset_us)
      × ((take_sample c sample).bucket_start_us ≡ c.bucket_start_us)
unfolding take_sample
take_sample-kept c sample =
    elim (Bool-cases (ltb_ℤ sample (get_or c.bucket_min_us c.bucket int64_max))) [
      | inl less ↦ rw less (refl, refl)
      | inr not_less ↦ rw not_less (refl, refl)
    ]

follow-start : (c : Clock) → (follow c).bucket_start_us ≡ c.bucket_start_us
unfolding follow
follow-start c = elim (Bool-cases (is_empty_bucket (median c.bucket_min_us))) [
  | inl none_filled ↦ rw none_filled refl
  | inr filled ↦ rw filled refl
]

started :
    (c : Clock) (media now : ℤ)
    → c.initialized ≡ true
    → let f = follow (take_sample (advance_window c now) (now -ℤ media)) in
      map_time c media now ≡ (media +ℤ f.offset_us, f)
unfolding map_time
started c media now on = ground arith

-- Once it has started, a call of `rss_media_clock_map` moves the offset by at most 1000 us, returns
-- the media time plus the new offset, and leaves the window at the second that `now` falls into,
-- whatever came before: a gap, a step back in time or none of these.
pub map_time-IsNear :
    (c : Clock) (media now : ℤ)
    → c.initialized ≡ true
    → let r = map_time c media now in
      IsNear 1000 c.offset_us r.1.offset_us × (r.0 ≡ media +ℤ r.1.offset_us) × IsCurrent now r.1
map_time-IsNear c media now on =
    let w = advance_window c now in
    let t = take_sample w (now -ℤ media) in
    let (kept, current) = advance_window-IsCurrent c now in
    let (same, start) = take_sample-kept w (now -ℤ media) in
    let near : IsNear 1000 c.offset_us (follow t).offset_us =
      IsNear-from c.offset_us t.offset_us (follow t).offset_us (same ∙ kept) (follow-IsNear t) in
    rw (started c media now on) (
      near,
      refl,
      record {
        passed = current.passed;
        short = current.short;
        sum = current.sum ∙ ap (λ x. x +ℤ pos current.passed) (sym (follow-start t ∙ start));
      },
    )
