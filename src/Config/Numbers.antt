-- ===== src/Config/Numbers.antt =====
-- `rss_config_get_int` and `rss_config_set_int` (src/rss_config.c). `strtol` stands for strtol with
-- base 0: what it reads at the front of a string, none where it reads nothing.
use raptor_common.Base.Int.{ℤ, pos, negsuc}
use raptor_common.Base.{
  ℕ, zero, suc, ◌+◌, ◌-◌, ◌/◌, ◌%◌, ◌^◌, ◌≤◌, ◌<◌, [], ◌∷◌, ◌++◌, Option, none, some, ltb, length,
  length-append, if◌then◌else◌, Bytes, ◌≡◌, ◌≢◌, arith,
}
use raptor_common.Config.Edit.{set_str}
use raptor_common.Config.Lookup.{clip}
use raptor_common.Config.Store.{on_section, add_entry_default, sec_name, get_str}
use raptor_common.Config.Types.{Config}
use raptor_common.Config.Writes.{lookup-set_str}
use raptor_common.Text.Copying.{take_all}
use raptor_common.Text.Names.{case_eq_refl}
use raptor_common.Text.{strlcpy}

-- `snprintf` of "%d": an int has at most ten digits.
unfoldable pub decimal : ℕ → ℕ → Bytes
decimal zero n = []
decimal (suc fuel) n =
    let front = decimal fuel (n / 10) in (if ltb n 10 then [] else front) ++ (b'0' + n % 10) ∷ []

unfoldable pub int_text : ℤ → Bytes
unfolding decimal
int_text (pos n) = decimal 10 n
int_text (negsuc n) = b'-' ∷ decimal 10 (suc n)

-- The cast of a long to an int keeps the low 32 bits.
abbrev pub signed_word : ℕ → ℤ
signed_word r = if ltb r (2 ^ 31) then pos r else negsuc (2 ^ 32 - 1 - r)

unfoldable pub as_int : ℤ → ℤ
as_int (pos n) = signed_word (n % 2 ^ 32)
as_int (negsuc n) = signed_word (2 ^ 32 - 1 - n % 2 ^ 32)

abbrev pub IsInt : ℤ → Type 0
IsInt (pos n) = n < 2 ^ 31
IsInt (negsuc n) = n < 2 ^ 31

unfoldable pub set_int : Config → Option Bytes → Bytes → ℤ → Config
unfolding int_text
set_int cfg section key value = set_str cfg section key (int_text value)

-- The result of `strtol` at the front of a value, the default where it read nothing.
abbrev pub int_or : ℤ → Option ℤ → ℤ
int_or default none = default
int_or default (some v) = as_int v

length-decimal : (fuel n : ℕ) → length (decimal fuel n) ≤ fuel
unfolding decimal
length-decimal zero n = omega arith
length-decimal (suc fuel) n = ground (
  arith,
  length-decimal fuel (n / 10),
  length-append (decimal fuel (n / 10)) ((b'0' + n % 10) ∷ []),
)

clip-int_text : (v : ℤ) → clip (int_text v) ≡ int_text v
unfolding int_text strlcpy
clip-int_text (pos n) = take_all 255 (decimal 10 n) (omega (arith, length-decimal 10 n))
clip-int_text (negsuc n) =
    take_all 255 (b'-' ∷ decimal 10 (suc n)) (omega (arith, length-decimal 10 (suc n)))

as_int_fits : (v : ℤ) → IsInt v → as_int v ≡ v
unfolding as_int
as_int_fits (pos n) h = ground (arith, h)
as_int_fits (negsuc n) h = ground (arith, h)

module _ (strtol : Bytes → Option ℤ) where
  unfoldable pub get_int : Config → Option Bytes → Bytes → ℤ → ℤ × Config
  unfolding int_text as_int
  get_int cfg section key default =
      let (found, cfg') = get_str cfg section key none in
      elim found [
        | none ↦ (
          default,
          (on_section (sec_name section) (add_entry_default key (int_text default)) cfg').1,
        )
        | some v ↦ (int_or default (strtol v), cfg')
      ]

  -- An int that rss_config_set_int wrote is what rss_config_get_int reads, whatever the default, and
  -- the read changes nothing, if strtol reads what "%d" prints of an int; the section is not empty
  -- and the names fit.
  pub get_int-set_int :
      (prints : (v : ℤ) → IsInt v → strtol (int_text v) ≡ some v) (cfg : Config) (name key : Bytes)
      (v default : ℤ)
      → IsInt v
      → name ≢ []
      → length name ≤ 63
      → length key ≤ 63
      → get_int (set_int cfg (some name) key v) (some name) key default
        ≡ (v, set_int cfg (some name) key v)
  unfolding get_int get_str set_int
  get_int-set_int prints cfg name key v default hv ne p q = ground (
    arith,
    lookup-set_str cfg name key (int_text v) name key ne p q,
    case_eq_refl name,
    case_eq_refl key,
    prints v hv,
    clip-int_text v,
    as_int_fits v hv,
  )
