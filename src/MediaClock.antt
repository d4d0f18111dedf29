-- ===== src/MediaClock.antt =====
-- src/rss_media_clock.c. Times are signed integers whose range is not modelled: the code's sums stay
-- far inside 64 bits for times in microseconds.
pub mod Steps
use raptor_common.Base.Int.{ℤ, pos, negsuc, ◌+ℤ◌, ◌-ℤ◌, ltb_ℤ, quot_ℤ}
use raptor_common.Base.{
  ℕ, zero, suc, ◌+◌, ◌-◌, ◌*◌, ◌/◌, ◌%◌, ◌^◌, Bool, true, false, ◌&&◌, ◌||◌, not, List, [], ◌∷◌,
  Option, none, some, leb, ltb, ◌==◌, if◌then◌else◌, length, replicate, get_or,
}

-- RSS_MEDIA_CLOCK_BUCKETS, _BUCKET_US, _EWMA_DIV, _GAIN_DIV and _SLEW_MAX_US
abbrev pub buckets : ℕ
buckets = 16

abbrev pub bucket_us : ℕ
bucket_us = 1000000

abbrev pub ewma_div : ℕ
ewma_div = 16

abbrev pub gain_div : ℕ
gain_div = 16

abbrev pub slew_max_us : ℕ
slew_max_us = 1000

-- INT64_MAX, which marks an empty bucket
abbrev pub int64_max : ℤ
int64_max = pos (2 ^ 63 - 1)

pub record Clock : Type 0 where
  pub bucket_min_us : List ℤ
  pub bucket_start_us : ℤ
  pub offset_us : ℤ
  pub err_ewma_us : ℤ
  pub bucket : ℕ
  pub initialized : Bool

abbrev pub clear_buckets : Clock → Clock
clear_buckets c = record c { bucket_min_us = replicate buckets int64_max }

-- `rss_media_clock_init`
abbrev pub initial : Clock
initial = record {
  bucket_min_us = replicate buckets int64_max;
  bucket_start_us = pos 0;
  offset_us = pos 0;
  err_ewma_us = pos 0;
  bucket = 0;
  initialized = false;
}

unfoldable pub set_at : ℕ → ℤ → List ℤ → List ℤ
set_at i v [] = []
set_at zero v (x ∷ xs) = v ∷ xs
set_at (suc i) v (x ∷ xs) = x ∷ set_at i v xs

-- The `while` loop of `advance_window`, one bucket a round.
unfoldable pub advance_loop : ℕ → ℕ → Clock → Clock
advance_loop zero elapsed c = c
advance_loop (suc fuel) elapsed c =
    let b = (c.bucket + 1) % buckets in
    let next = advance_loop fuel (elapsed - bucket_us) (record c {
      bucket = b;
      bucket_min_us = set_at b int64_max c.bucket_min_us;
      bucket_start_us = c.bucket_start_us +ℤ pos bucket_us;
    }) in
    if leb bucket_us elapsed then next else c

-- A new window that starts now.
abbrev pub restarted : Clock → ℤ → Clock
restarted c now = record (clear_buckets c) { bucket = 0; bucket_start_us = now }

-- What the time that has passed since the bucket's start makes of the window: less than 16 buckets
-- take at most 15 rounds.
unfoldable pub advance_by : Clock → ℤ → ℤ → Clock
advance_by c now (negsuc n) = restarted c now
advance_by c now (pos elapsed) =
    if leb (bucket_us * buckets) elapsed then restarted c now else advance_loop buckets elapsed c

unfoldable pub advance_window : Clock → ℤ → Clock
unfolding advance_by
advance_window c now = advance_by c now (now -ℤ c.bucket_start_us)

-- The insertion sort of the buckets that are not empty.
unfoldable pub insert : ℤ → List ℤ → List ℤ
insert v [] = v ∷ []
insert v (x ∷ xs) = if ltb_ℤ v x then v ∷ x ∷ xs else x ∷ insert v xs

abbrev pub is_empty_bucket : ℤ → Bool
is_empty_bucket v = not (ltb_ℤ v int64_max) && not (ltb_ℤ int64_max v)

unfoldable pub sort_filled : List ℤ → List ℤ → List ℤ
sort_filled [] sorted = sorted
sort_filled (v ∷ vs) sorted = sort_filled vs (if is_empty_bucket v then sorted else insert v sorted)

unfoldable pub median : List ℤ → ℤ
median minima =
    let sorted = sort_filled minima [] in
    if length sorted == 0 then int64_max else get_or sorted (length sorted / 2) int64_max

abbrev pub clamp : ℤ → ℤ
clamp slew =
    if ltb_ℤ (pos slew_max_us) slew
    then pos slew_max_us
    else if ltb_ℤ slew (negsuc (slew_max_us - 1))
    then negsuc (slew_max_us - 1)
    else slew

-- The filtered step towards the median.
unfoldable pub follow : Clock → Clock
follow c =
    let target = median c.bucket_min_us in
    let err = target -ℤ c.offset_us in
    let ewma = c.err_ewma_us +ℤ quot_ℤ (err -ℤ c.err_ewma_us) ewma_div in
    if is_empty_bucket target
    then c
    else record c { err_ewma_us = ewma; offset_us = c.offset_us +ℤ clamp (quot_ℤ ewma gain_div) }

-- The sample is taken into the current bucket.
unfoldable pub take_sample : Clock → ℤ → Clock
take_sample c sample =
    if ltb_ℤ sample (get_or c.bucket_min_us c.bucket int64_max)
    then record c { bucket_min_us = set_at c.bucket sample c.bucket_min_us }
    else c

-- `rss_media_clock_map`: the mapped time and the clock afterwards.
unfoldable pub map_time : Clock → ℤ → ℤ → ℤ × Clock
map_time c media now =
    let sample = now -ℤ media in
    let followed = follow (take_sample (advance_window c now) sample) in
    let started = record c {
      bucket_start_us = now;
      bucket_min_us = set_at 0 sample c.bucket_min_us;
      offset_us = sample;
      initialized = true;
    } in
    if not c.initialized
    then (media +ℤ started.offset_us, started)
    else (media +ℤ followed.offset_us, followed)
