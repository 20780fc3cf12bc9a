-- ===== src/Start/Options.antt =====
-- The options of `iface_init`. An option is what `getopt` gives for "i:p:a:v:b:m:": its letter with
-- `optarg`, or `?`. `atoi` is the C library's.
use dipp.Base.{ℕ, List, [], ◌∷◌, Option, none, some}
use dipp.Base.Int.{ℤ, pos, to_u32}
use dipp.Base.Text.{codes}
use dipp.Types.{Text}

pub data Opt : Type 0 where
  opt_i : Text → Opt
  opt_p : Text → Opt
  opt_a : Text → Opt
  opt_v : Text → Opt
  opt_b : Text → Opt
  opt_m : Text → Opt
  opt_unknown : Opt

-- The local variables of `iface_init`, and `*vmem_dir`.
pub record Options : Type 0 where
  pub interface : Text
  pub port : Text
  pub kiss_device : Text
  pub can_device : Text
  pub pipeline_addr : ℤ
  pub vmem_dir : Option Text
  pub baudrate : ℕ
  pub netmask : ℤ

abbrev pub defaults : Options
defaults = record {
  interface = codes "ZMQ";
  port = codes "localhost";
  kiss_device = codes "/dev/ttyS1";
  can_device = codes "vcan0";
  pipeline_addr = pos 162;
  vmem_dir = none;
  baudrate = 115200;
  netmask = pos 8;
}

-- The cases of the `switch`; `none` for the one that prints the usage and exits.
unfoldable pub apply_option : (Text → ℤ) → Opt → Options → Option Options
apply_option atoi (opt_i optarg) o = some (record o { interface = optarg })
apply_option atoi (opt_p optarg) o =
    some (record o { port = optarg; kiss_device = optarg; can_device = optarg })
apply_option atoi (opt_a optarg) o = some (record o { pipeline_addr = atoi optarg })
apply_option atoi (opt_v optarg) o = some (record o { vmem_dir = some optarg })
apply_option atoi (opt_b optarg) o = some (record o { baudrate = to_u32 (atoi optarg) })
apply_option atoi (opt_m optarg) o = some (record o { netmask = atoi optarg })
apply_option atoi opt_unknown o = none

-- The `while` loop.
unfoldable pub parse_options : (Text → ℤ) → List Opt → Options → Option Options
unfolding apply_option
parse_options atoi [] o = some o
parse_options atoi (opt ∷ opts) o = elim (apply_option atoi opt o) [
  | none ↦ none
  | some next ↦ parse_options atoi opts next
]
