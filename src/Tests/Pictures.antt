-- ===== src/Tests/Pictures.antt =====
-- A capture time in a picture at a concrete input.
use raptor_common.Base.Int.{ℤ, pos, pos_part, ◌+ℤ◌}
use raptor_common.Base.{
  ℕ, ◌+◌, ◌-◌, ◌*◌, ◌/◌, ◌%◌, ◌≤◌, ◌<◌, List, [], ◌∷◌, ◌++◌, Option, none, some, length, take, drop,
  Bytes, ◌≡◌, refl, ap, arith,
}
use raptor_common.Jpeg.Exif.{
  Tm, Calendar, date, padded, exif_head, exif_values, insert_exif, inserted, get_exif_time, time,
}
use raptor_common.Jpeg.Stamped.{IsCalendar, get_exif_time-insert_exif}

-- A stand-in for a calendar: years of 12 months of 28 days, from 1970 on.
abbrev tm_of : ℕ → Tm
tm_of s = record {
  year = pos (70 + s / 86400 / 336);
  mon = pos (s / 86400 / 28 % 12);
  mday = pos (s / 86400 % 28 + 1);
  hour = pos (s / 3600 % 24);
  min = pos (s / 60 % 60);
  sec = pos (s % 60);
}

abbrev second_of : Tm → ℤ
second_of t =
    let days = ((pos_part t.year - 70) * 12 + pos_part t.mon) * 28 + (pos_part t.mday - 1) in
    pos (((days * 24 + pos_part t.hour) * 60 + pos_part t.min) * 60 + pos_part t.sec)

abbrev printed : Tm → Bytes
printed t =
    padded 4 (pos_part t.year + 1900)
    ++ b':' ∷ padded 2 (pos_part t.mon + 1)
    ++ b':' ∷ padded 2 (pos_part t.mday)
    ++ b' ' ∷ padded 2 (pos_part t.hour)
    ++ b':' ∷ padded 2 (pos_part t.min)
    ++ b':' ∷ padded 2 (pos_part t.sec)

abbrev two : ℕ → ℕ → ℕ
two a b = (a - 48) * 10 + (b - 48)

abbrev scanned : Bytes → List ℤ
scanned
      (y3 ∷ y2 ∷ y1 ∷ y0 ∷ _ ∷ m1 ∷ m0 ∷ _ ∷ d1 ∷ d0 ∷ _ ∷ h1 ∷ h0 ∷ _ ∷ n1 ∷ n0 ∷ _ ∷ s1 ∷ s0
        ∷ rest) =
    pos (two y3 y2 * 100 + two y1 y0)
    ∷ pos (two m1 m0)
    ∷ pos (two d1 d0)
    ∷ pos (two h1 h0)
    ∷ pos (two n1 n0)
    ∷ pos (two s1 s0)
    ∷ []
scanned _ = []

abbrev fraction : Bytes → Option ℕ
fraction (a ∷ b ∷ c ∷ d ∷ e ∷ f ∷ s) = some (two a b * 10000 + two c d * 100 + two e f)
fraction _ = none

abbrev calendar : Calendar
calendar = record {
  gmtime = tm_of;
  strftime = λ format t. printed t;
  sscanf = λ format s. scanned s;
  sscanf_unsigned = λ format s. fraction s;
  timegm = second_of;
}

pair : (v : ℕ) → v < 100 → two (48 + v / 10 % 10) (48 + v % 10) ≡ v
pair v h = omega arith

four :
    (v : ℕ)
    → v < 10000
    → two (48 + v / 10 / 10 / 10 % 10) (48 + v / 10 / 10 % 10) * 100
        + two (48 + v / 10 % 10) (48 + v % 10)
      ≡ v
four v h = omega arith

six :
    (v : ℕ)
    → v < 1000000
    → two (48 + v / 10 / 10 / 10 / 10 / 10 % 10) (48 + v / 10 / 10 / 10 / 10 % 10) * 10000
        + two (48 + v / 10 / 10 / 10 % 10) (48 + v / 10 / 10 % 10) * 100
        + two (48 + v / 10 % 10) (48 + v % 10)
      ≡ v
six v h = omega arith

added : (a b : ℕ) → pos a +ℤ pos b ≡ pos (a + b)
unfolding ◌+ℤ◌
added a b = ground arith

back : (s : ℕ) → second_of (tm_of s) ≡ pos s
back s = ap pos (omega arith)

scanned_back :
    (s : ℕ) (ends : Bytes)
    → s < 233114112000
    → let t = tm_of s in
      scanned (printed t ++ 0 ∷ ends)
      ≡ (t.year +ℤ pos 1900) ∷ (t.mon +ℤ pos 1) ∷ t.mday ∷ t.hour ∷ t.min ∷ t.sec ∷ []
unfolding padded
scanned_back s ends h =
    rw
      (
        added (70 + s / 86400 / 336) 1900,
        added (s / 86400 / 28 % 12) 1,
        four (70 + s / 86400 / 336 + 1900) (omega (arith, h)),
        pair (s / 86400 / 28 % 12 + 1) (omega arith),
        pair (s / 86400 % 28 + 1) (omega arith),
        pair (s / 3600 % 24) (omega arith),
        pair (s / 60 % 60) (omega arith),
        pair (s % 60) (omega arith),
      )
      refl

calendar-IsCalendar : IsCalendar calendar 233114112000
unfolding padded
calendar-IsCalendar = record {
  size = λ s h. refl;
  sscanf-strftime = λ s ends h. scanned_back s ends h;
  sscanf_unsigned-padded = λ v ends h. ap some (six v h);
  timegm-gmtime = λ s h. back s;
}

abbrev picture : Bytes
picture = 0xff ∷ 0xd8 ∷ 1 ∷ 2 ∷ 0xff ∷ 0xd9 ∷ []

abbrev stamped : Bytes
stamped =
    0xff
    ∷ 0xd8
    ∷ (exif_head
        ++ (exif_values (date calendar 1700000000) 1700000000123456 ++ 1 ∷ 2 ∷ 0xff ∷ 0xd9 ∷ []))

picture-stamped : insert_exif calendar 200 1700000000123456 picture ≡ inserted stamped
unfolding insert_exif exif_values padded
picture-stamped = refl

get_exif_time-insert_exif_example :
    (get_exif_time calendar stamped ≡ time 1700000000123456)
    × (length stamped ≡ length picture + 112)
    × (length stamped ≤ 200)
    × (take 2 stamped ++ drop 114 stamped ≡ picture)
get_exif_time-insert_exif_example =
    get_exif_time-insert_exif calendar 233114112000 calendar-IsCalendar 200 1700000000123456 picture
      stamped (omega arith) (omega arith) picture-stamped
