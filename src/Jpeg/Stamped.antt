-- ===== src/Jpeg/Stamped.antt =====
-- `rss_jpeg_insert_exif` and `rss_jpeg_get_exif_time` (src/rss_jpeg.c) together.
use mathlib.Core.List.{append_assoc}
use raptor_common.Base.Slices.{take_front, drop_front}
use raptor_common.Base.Int.{ℤ, pos, ◌+ℤ◌, ◌-ℤ◌, int_laws}
use raptor_common.Base.{
  ℕ, zero, suc, ◌+◌, ◌*◌, ◌/◌, ◌%◌, ◌^◌, ◌≤◌, ◌<◌, [], ◌∷◌, ◌++◌, some, length, length-append,
  length-take, take, drop, Bytes, codes, ◌≡◌, refl, sym, ◌∙◌, ap, arith,
}
use raptor_common.Jpeg.Exif.{
  Calendar, date_format, scan_format, date, seconds_of, padded, exif_head, exif_values, inserted,
  insert_exif, time, read_exif, exif_loop, get_exif_time,
}
use raptor_common.Text.Copying.{take_all}
use raptor_common.Text.{str_eq}

-- What is relied on of the C library, up to the second `limit`: a date has 19 characters, sscanf reads
-- back the numbers that strftime prints, the year in full and the months from 1, and the six digits
-- of a number, with NULs behind them, and timegm is inverse to gmtime.
pub record IsCalendar (C : Calendar) (limit : ℕ) : Type 0 where
  pub size : (s : ℕ) → s < limit → length (C.strftime date_format (C.gmtime s)) ≡ 19
  pub sscanf-strftime :
      (s : ℕ) (ends : Bytes)
      → s < limit
      → let t = C.gmtime s in
        C.sscanf scan_format (C.strftime date_format t ++ 0 ∷ ends)
        ≡ (t.year +ℤ pos 1900) ∷ (t.mon +ℤ pos 1) ∷ t.mday ∷ t.hour ∷ t.min ∷ t.sec ∷ []
  pub sscanf_unsigned-padded :
      (v : ℕ) (ends : Bytes)
      → v < 1000000
      → C.sscanf_unsigned (codes "%6u") (padded 6 v ++ 0 ∷ ends) ≡ some v
  pub timegm-gmtime : (s : ℕ) → s < limit → C.timegm (C.gmtime s) ≡ pos s

sub_add : (a b : ℤ) → a +ℤ b -ℤ b ≡ a
sub_add a b = grind int_laws

length-padded : (n v : ℕ) → length (padded n v) ≡ n
unfolding padded
length-padded zero v = refl
length-padded (suc n) v =
    omega
      (arith, length-append (padded n (v / 10)) ((b'0' + v % 10) ∷ []), length-padded n (v / 10))

module _ (d : Bytes) (utc_us : ℕ) (rest : Bytes) (d20 : length d ≡ 20) where
  abbrev digits : Bytes
  digits = padded 6 (utc_us % 1000000) ++ 0 ∷ []

  abbrev zone : Bytes
  zone = codes "+00:00" ++ 0 ∷ []

  abbrev values : Bytes
  values = exif_values d utc_us

  length-values : length values ≡ 34
  unfolding exif_values
  length-values = omega (
    arith,
    length-append (take 20 d) (zone ++ digits),
    length-append zone digits,
    length-take 20 d,
    d20,
  )

  take_date : take 20 (values ++ rest) ≡ d
  unfolding exif_values
  take_date =
      ap (take 20) (append_assoc (take 20 d) (zone ++ digits) rest)
      ∙ take_front 20 (take 20 d) ((zone ++ digits) ++ rest) (omega (arith, length-take 20 d, d20))
      ∙ take_all 20 d (omega (arith, d20))

  take-digits : take 7 (drop 27 (values ++ rest)) ≡ digits
  unfolding exif_values padded
  take-digits =
      let shape : values ++ rest ≡ (take 20 d ++ zone) ++ (digits ++ rest) =
        append_assoc (take 20 d) (zone ++ digits) rest
        ∙ sym (append_assoc (take 20 d) zone (digits ++ rest)) in
      ap (λ (s : Bytes). take 7 (drop 27 s)) shape
      ∙ ap (take 7) (
          drop_front 27 (take 20 d ++ zone) (digits ++ rest)
            (omega (arith, length-append (take 20 d) zone, length-take 20 d, d20)))

-- The segment that was inserted is the first one, and it is found and read.
module _ (C : Calendar) where
  exif_found :
      (n : ℕ) (tail : Bytes)
      → 34 ≤ length tail
      → exif_loop C (suc n) (exif_head ++ tail) ≡ read_exif C (exif_head ++ tail)
  unfolding exif_loop str_eq
  exif_found n tail h = ground (arith, h)

  get_exif_time_start :
      (s : Bytes)
      → 2 ≤ length s
      → get_exif_time C (0xff ∷ 0xd8 ∷ s) ≡ exif_loop C (length (0xff ∷ 0xd8 ∷ s)) s
  unfolding get_exif_time
  get_exif_time_start s h = ground (arith, h)

  read_exif_fields :
      (tail : Bytes) (sec frac : ℕ)
      → seconds_of C (C.sscanf scan_format (take 20 tail ++ 0 ∷ [])) ≡ some (pos sec)
      → C.sscanf_unsigned (codes "%6u") (take 7 (drop 27 tail) ++ 0 ∷ []) ≡ some frac
      → read_exif C (exif_head ++ tail) ≡ time ((sec % 2 ^ 64 * 1000000 + frac) % 2 ^ 64)
  unfolding read_exif
  read_exif_fields tail sec frac e f = rw (e, f, read_exif) refl

insert_exif_parts :
    (C : Calendar) (cap utc_us : ℕ) (buf out : Bytes)
    → insert_exif C cap utc_us buf ≡ inserted out
    → (rest : Bytes) × (buf ≡ 0xff ∷ 0xd8 ∷ rest)
      × (length buf + 112 ≤ cap)
      × (out
          ≡ 0xff ∷ 0xd8 ∷ (exif_head ++ (exif_values (date C (utc_us / 1000000)) utc_us ++ rest)))
unfolding insert_exif
insert_exif_parts C cap utc_us [] out h = absurd (ground (arith, h))
insert_exif_parts C cap utc_us (a ∷ []) out h = absurd (ground (arith, h))
insert_exif_parts C cap utc_us (a ∷ b ∷ rest) out h =
    (rest, ground (arith, h), ground (arith, h), ground (arith, h))

module _ (C : Calendar) (limit : ℕ) (calendar : IsCalendar C limit) where
  date_size : (s : ℕ) → s < limit → length (date C s) ≡ 20
  date_size s h =
      omega (arith, calendar.size s h, length-append (C.strftime date_format (C.gmtime s)) (0 ∷ []))

  seconds_back :
      (s : ℕ) → s < limit → seconds_of C (C.sscanf scan_format (date C s ++ 0 ∷ [])) ≡ some (pos s)
  seconds_back s h =
      let t = C.gmtime s in
      ap (λ (d : Bytes). seconds_of C (C.sscanf scan_format d))
        (append_assoc (C.strftime date_format t) (0 ∷ []) (0 ∷ []))
      ∙ ap (seconds_of C) (calendar.sscanf-strftime s (0 ∷ []) h)
      ∙ rw (sub_add t.year (pos 1900), sub_add t.mon (pos 1), calendar.timegm-gmtime s h) refl

  read_inserted :
      (utc_us : ℕ) (rest : Bytes)
      → utc_us < 2 ^ 64
      → utc_us / 1000000 < limit
      → get_exif_time C
          (0xff ∷ 0xd8 ∷ (exif_head ++ (exif_values (date C (utc_us / 1000000)) utc_us ++ rest)))
        ≡ time utc_us
  read_inserted utc_us rest hu hl =
      let s : ℕ = utc_us / 1000000 in
      let d = date C s in
      let d20 = date_size s hl in
      let tail = exif_values d utc_us ++ rest in
      let long : 34 ≤ length tail =
        omega (arith, length-append (exif_values d utc_us) rest, length-values d utc_us rest d20) in
      let sec =
        ap (λ (x : Bytes). seconds_of C (C.sscanf scan_format (x ++ 0 ∷ [])))
          (take_date d utc_us rest d20)
        ∙ seconds_back s hl in
      let frac =
        ap (λ (x : Bytes). C.sscanf_unsigned (codes "%6u") (x ++ 0 ∷ []))
          (take-digits d utc_us rest d20)
        ∙ ap (C.sscanf_unsigned (codes "%6u"))
            (append_assoc (padded 6 (utc_us % 1000000)) (0 ∷ []) (0 ∷ []))
        ∙ calendar.sscanf_unsigned-padded (utc_us % 1000000) (0 ∷ []) (omega arith) in
      let sum : (s % 2 ^ 64 * 1000000 + utc_us % 1000000) % 2 ^ 64 ≡ utc_us = omega (arith, hu) in
      get_exif_time_start C (exif_head ++ tail) (omega arith)
      ∙ exif_found C (suc (length (exif_head ++ tail))) tail long
      ∙ read_exif_fields C tail s (utc_us % 1000000) sec frac
      ∙ ap time sum

  -- Whatever rss_jpeg_insert_exif writes for a time of 64 bits and below the calendar's limit is the
  -- image with 112 bytes more, in a buffer that has room for them, and rss_jpeg_get_exif_time reads
  -- the time back to the microsecond; up to the limit a date has 19 characters, sscanf reads what
  -- strftime prints of a time and what snprintf prints of six digits, and timegm inverts gmtime_r.
  pub get_exif_time-insert_exif :
      (cap utc_us : ℕ) (buf out : Bytes)
      → utc_us < 2 ^ 64
      → utc_us / 1000000 < limit
      → insert_exif C cap utc_us buf ≡ inserted out
      → (get_exif_time C out ≡ time utc_us)
        × (length out ≡ length buf + 112)
        × (length out ≤ cap)
        × (take 2 out ++ drop 114 out ≡ buf)
  get_exif_time-insert_exif cap utc_us buf out hu hl h =
      let p = insert_exif_parts C cap utc_us buf out h in
      let rest = p.0 in
      let d = date C (utc_us / 1000000) in
      let d20 = date_size (utc_us / 1000000) hl in
      let values = exif_values d utc_us in
      let size = length-values d utc_us rest d20 in
      let whole : length (values ++ rest) ≡ 34 + length rest =
        omega (arith, length-append values rest, size) in
      rw p.1 (
        rw p.3 (
          read_inserted utc_us rest hu hl,
          omega (arith, whole),
          omega (arith, whole, p.2, ap length p.1),
          ap (λ (s : Bytes). 0xff ∷ 0xd8 ∷ s) (drop_front 34 values rest size),
        ))
