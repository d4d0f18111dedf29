-- ===== src/Jpeg/Exif.antt =====
-- `rss_jpeg_insert_exif` and `rss_jpeg_get_exif_time` (src/rss_jpeg.c), on buffers that are not NULL.
-- gmtime_r, strftime, sscanf and timegm are parameters, a record of them; strftime fits its buffer.
use raptor_common.Base.Bits.{bit_or}
use raptor_common.Base.Int.{ℤ, pos, negsuc, ◌-ℤ◌}
use raptor_common.Base.{
  Bool, true, false, List, ◌-◌, ℕ, zero, suc, ◌+◌, ◌*◌, ◌/◌, ◌%◌, ◌^◌, ◌&&◌, ◌||◌, not, [], ◌∷◌,
  ◌++◌, Option, none, some, ltb, leb, ◌==◌, if◌then◌else◌, length, take, drop, Bytes, codes,
}
use raptor_common.Jpeg.{byte_at, no_start, Refusal, invalid, no_space, absent}
use raptor_common.Text.{str_eq}

abbrev pub tiff_size : ℕ
tiff_size = 102

abbrev pub exif_payload : ℕ
exif_payload = 6 + tiff_size

abbrev pub exif_segment : ℕ
exif_segment = 4 + exif_payload

abbrev pub put16le : ℕ → Bytes
put16le v = v % 256 ∷ v / 256 ∷ []

abbrev pub put32le : ℕ → Bytes
put32le v = v % 256 ∷ v / 2 ^ 8 % 256 ∷ v / 2 ^ 16 % 256 ∷ v / 2 ^ 24 % 256 ∷ []

abbrev pub tiff_entry : ℕ → ℕ → ℕ → ℕ → Bytes
tiff_entry tag type count value = put16le tag ++ (put16le type ++ (put32le count ++ put32le value))

-- `snprintf` of "%0nu" for a number of at most `n` digits, without its NUL.
unfoldable pub padded : ℕ → ℕ → Bytes
padded zero v = []
padded (suc n) v = padded n (v / 10) ++ (b'0' + v % 10) ∷ []

-- From the TIFF header to the value area.
abbrev pub tiff_head : Bytes
tiff_head =
    codes "II"
    ++ (put16le 0x002a
        ++ (put32le 8
            ++ (put16le 1
                ++ (tiff_entry 0x8769 4 1 26
                    ++ (put32le 0
                        ++ (put16le 3
                            ++ (tiff_entry 0x9003 2 20 68
                                ++ (tiff_entry 0x9011 2 7 88
                                    ++ (tiff_entry 0x9291 2 7 95 ++ put32le 0)))))))))

abbrev pub exif_head : Bytes
exif_head =
    0xff
    ∷ 0xe1
    ∷ (exif_payload + 2) / 256 % 256
    ∷ (exif_payload + 2) % 256
    ∷ (codes "Exif" ++ (0 ∷ 0 ∷ tiff_head))

-- The value area.
unfoldable pub exif_values : Bytes → ℕ → Bytes
unfolding padded
exif_values date utc_us =
    take 20 date ++ (codes "+00:00" ++ (0 ∷ (padded 6 (utc_us % 1000000) ++ 0 ∷ [])))

-- `struct tm`, as far as the code uses it.
pub record Tm : Type 0 where
  pub year : ℤ
  pub mon : ℤ
  pub mday : ℤ
  pub hour : ℤ
  pub min : ℤ
  pub sec : ℤ

-- The calendar of the C library. strftime is given its format, and so is sscanf: the ints that it
-- converts one after the other, and for a format of one unsigned the number, if it converts.
pub record Calendar : Type 0 where
  pub gmtime : ℕ → Tm
  pub strftime : Bytes → Tm → Bytes
  pub sscanf : Bytes → Bytes → List ℤ
  pub sscanf_unsigned : Bytes → Bytes → Option ℕ
  pub timegm : Tm → ℤ

abbrev pub date_format : Bytes
date_format = codes "%Y:%m:%d %H:%M:%S"

abbrev pub scan_format : Bytes
scan_format = codes "%4d:%2d:%2d %2d:%2d:%2d"

pub data Inserted : Type 0 where
  inserted : Bytes → Inserted
  not_inserted : Refusal → Inserted

-- `rss_jpeg_insert_exif` in a buffer of `cap` bytes
module _ (C : Calendar) where
  -- `dt`, with its NUL
  abbrev pub date : ℕ → Bytes
  date sec = C.strftime date_format (C.gmtime sec) ++ 0 ∷ []

  unfoldable pub insert_exif : ℕ → ℕ → Bytes → Inserted
  unfolding exif_values
  insert_exif cap utc_us buf =
      if ltb (length buf) 4 || no_start buf
      then not_inserted invalid
      else if ltb cap (length buf + exif_segment)
      then not_inserted no_space
      else inserted (
          take 2 buf ++ (exif_head ++ (exif_values (date (utc_us / 1000000)) utc_us ++ drop 2 buf)))

-- `sec == (time_t)-1`, and the cast `(uint64_t)sec`
abbrev pub is_minus_one : ℤ → Bool
is_minus_one (negsuc zero) = true
is_minus_one _ = false

abbrev pub as_uint64 : ℤ → ℕ
as_uint64 (pos n) = n % 2 ^ 64
as_uint64 (negsuc n) = 2 ^ 64 - 1 - n % 2 ^ 64

pub data ExifTime : Type 0 where
  time : ℕ → ExifTime
  no_time : Refusal → ExifTime

module _ (C : Calendar) where
  -- What timegm gives for the six numbers; -1 is refused.
  abbrev pub seconds_of : List ℤ → Option ℤ
  seconds_of (year ∷ mon ∷ mday ∷ hour ∷ min ∷ sec ∷ []) =
      let t = C.timegm (record {
        year = year -ℤ pos 1900;
        mon = mon -ℤ pos 1;
        mday = mday;
        hour = hour;
        min = min;
        sec = sec;
      }) in
      if is_minus_one t then none else some t
  seconds_of _ = none

  abbrev pub fraction_of : Option ℕ → ℕ
  fraction_of none = 0
  fraction_of (some n) = n

  -- The fields of a segment, which starts with its marker.
  unfoldable pub read_exif : Bytes → ExifTime
  read_exif seg =
      let tiff = drop 10 seg in
      let dt = take 20 (drop 68 tiff) ++ 0 ∷ [] in
      let sub = take 7 (drop 95 tiff) ++ 0 ∷ [] in
      elim (seconds_of (C.sscanf scan_format dt)) [
        | none ↦ no_time absent
        | some sec ↦
            time (
              (as_uint64 sec * 1000000 + fraction_of (C.sscanf_unsigned (codes "%6u") sub))
              % 2 ^ 64)
      ]

  -- The loop over the segments; `rest` is what stands from `pos` on. A round takes four bytes or more.
  unfoldable pub exif_loop : ℕ → Bytes → ExifTime
  unfolding read_exif
  exif_loop zero rest = no_time absent
  exif_loop (suc fuel) rest =
      let marker = byte_at rest 1 in
      let seglen = bit_or (byte_at rest 2 * 2 ^ 8) (byte_at rest 3) in
      let next = exif_loop fuel (drop (2 + seglen) rest) in
      if ltb (length rest) 4
      then no_time absent
      else if not (byte_at rest 0 == 0xff)
      then no_time absent
      else if marker == 0xda || marker == 0xd9
      then no_time absent
      else if ltb seglen 2 || ltb (length rest) (2 + seglen)
      then no_time absent
      else if marker == 0xe1
          && leb (2 + exif_payload) seglen
          && str_eq (take 6 (drop 4 rest)) (codes "Exif" ++ (0 ∷ 0 ∷ []))
      then read_exif rest
      else next

  -- `rss_jpeg_get_exif_time`
  unfoldable pub get_exif_time : Bytes → ExifTime
  unfolding exif_loop
  get_exif_time buf =
      if ltb (length buf) 4 || no_start buf
      then no_time invalid
      else exif_loop (length buf) (drop 2 buf)
