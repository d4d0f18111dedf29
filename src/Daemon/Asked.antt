-- ===== src/Daemon/Asked.antt =====
-- What the arguments of `rss_daemon_init` (src/rss_daemon.c) ask for, and the option loop against it.
use raptor_common.Base.{Bool, true, false, List, [], ◌∷◌, ◌||◌, codes, Bytes, ◌≡◌, arith}
use raptor_common.Daemon.Init.{
  Opt, opt_config, opt_foreground, opt_debug, opt_version, opt_help, opt_unknown, Options,
  parse_options, parsed, default_options,
}

-- What the arguments ask for, read from the list.
abbrev pub is_foreground : Opt → Bool
is_foreground opt_foreground = true
is_foreground _ = false

abbrev pub is_debug : Opt → Bool
is_debug opt_debug = true
is_debug _ = false

abbrev pub ends_start : Opt → Bool
ends_start opt_version = true
ends_start opt_help = true
ends_start opt_unknown = true
ends_start _ = false

unfoldable pub some_option : (Opt → Bool) → List Opt → Bool
some_option test [] = false
some_option test (x ∷ xs) = test x || some_option test xs

unfoldable pub last_path : Bytes → List Opt → Bytes
last_path path [] = path
last_path path (opt_config p ∷ xs) = last_path p xs
last_path path (x ∷ xs) = last_path path xs

pub record AsAsked (opts : List Opt) (o : Options) : Type 0 where
  pub foreground : o.foreground ≡ some_option is_foreground opts
  pub debug : o.debug ≡ some_option is_debug opts
  pub path : o.config_path ≡ last_path (codes "/etc/raptor.conf") opts
  pub goes_on : some_option ends_start opts ≡ false

-- The option loop from any options on.
parse_options_from :
    (opts : List Opt) (a o : Options)
    → parse_options opts a ≡ parsed o
    → (o.foreground ≡ (a.foreground || some_option is_foreground opts))
      × (o.debug ≡ (a.debug || some_option is_debug opts))
      × (o.config_path ≡ last_path a.config_path opts)
      × ((a.show_help || some_option ends_start opts) ≡ false)
unfolding parse_options some_option last_path
parse_options_from [] a o h = ground (arith, h)
parse_options_from (opt_config p ∷ xs) a o h =
    parse_options_from xs (record a { config_path = p }) o h
parse_options_from (opt_foreground ∷ xs) a o h =
    let (f, d, p, e) = parse_options_from xs (record a { foreground = true }) o h in
    (ground (arith, f), d, p, e)
parse_options_from (opt_debug ∷ xs) a o h =
    let (f, d, p, e) = parse_options_from xs (record a { debug = true }) o h in
    (f, ground (arith, d), p, e)
parse_options_from (opt_version ∷ xs) a o h = absurd (ground (arith, h))
parse_options_from (opt_help ∷ xs) a o h =
    let (f, d, p, e) = parse_options_from xs (record a { show_help = true }) o h in
    absurd (ground (arith, e))
parse_options_from (opt_unknown ∷ xs) a o h = absurd (ground (arith, h))

pub parse_options-AsAsked :
    (opts : List Opt) (o : Options) → parse_options opts default_options ≡ parsed o → AsAsked opts o
parse_options-AsAsked opts o h =
    let (f, d, p, e) = parse_options_from opts default_options o h in
    record { foreground = f; debug = d; path = p; goes_on = e }
