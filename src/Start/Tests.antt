-- ===== src/Start/Tests.antt =====
-- The theorems on src/main.c at small command lines.
use dipp.Base.{◌≡◌, refl, List, [], ◌∷◌, true, some}
use dipp.Base.Int.{ℤ, pos}
use dipp.Base.Text.{codes}
use dipp.Types.{Text}
use dipp.Start.Options.{Opt, opt_i, opt_a, opt_v, defaults, parse_options}
use dipp.Start.Defs.{CspLib, serial_init, csp_init, main}
use dipp.Start.Parsed.{settings, parse_options-settings}
use dipp.Start.Ifaces.{can, open_call, started, main-started}

-- A number for every text.
abbrev fixed : Text → ℤ
fixed text = pos 165

abbrev can_options : List Opt
can_options =
    opt_i (codes "ZMQ") ∷ opt_i (codes "CAN") ∷ opt_a (codes "165") ∷ opt_v (codes "/var/vmem") ∷ []

abbrev working : CspLib
working = record { zmq_ok = true; kiss_ok = true; can_ok = true }

parse_options-settings_example :
    parse_options fixed can_options defaults ≡ some (settings fixed can_options defaults)
parse_options-settings_example = parse_options-settings fixed can_options defaults

main-started_example : main working fixed 17 can_options ≡ (
  serial_init 17
      ∷ csp_init
      ∷ open_call can (settings fixed can_options defaults)
      ∷ (started can (settings fixed can_options defaults) true).0,
  (started can (settings fixed can_options defaults) true).1,
)
main-started_example = main-started working fixed 17 can_options refl can refl
