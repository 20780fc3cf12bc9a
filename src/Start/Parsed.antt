-- ===== src/Start/Parsed.antt =====
-- The options against a reading that looks for the last one of each letter.
use dipp.Base.{◌≡◌, refl, ◌∙◌, List, [], ◌∷◌, Option, none, some, Bool, true, false, if◌then◌else◌}
use dipp.Base.Int.{ℤ, to_u32}
use dipp.Types.{Text}
use dipp.Start.Options.{
  Opt, opt_i, opt_p, opt_a, opt_v, opt_b, opt_m, opt_unknown, Options, parse_options,
}

abbrev or_else : {A : Type 0} → Option A → Option A → Option A
or_else none b = b
or_else (some a) b = some a

abbrev or_default : {A : Type 0} → Option A → A → A
or_default none d = d
or_default (some a) d = a

-- The argument of the last option that a letter selects.
abbrev pub last_of : (Opt → Option Text) → List Opt → Option Text
last_of select [] = none
last_of select (opt ∷ opts) = or_else (last_of select opts) (select opt)

abbrev is_i : Opt → Option Text
is_i (opt_i optarg) = some optarg
is_i opt = none

abbrev is_p : Opt → Option Text
is_p (opt_p optarg) = some optarg
is_p opt = none

abbrev is_a : Opt → Option Text
is_a (opt_a optarg) = some optarg
is_a opt = none

abbrev is_v : Opt → Option Text
is_v (opt_v optarg) = some optarg
is_v opt = none

abbrev is_b : Opt → Option Text
is_b (opt_b optarg) = some optarg
is_b opt = none

abbrev is_m : Opt → Option Text
is_m (opt_m optarg) = some optarg
is_m opt = none

abbrev through : {A B : Type 0} → (A → B) → Option A → Option B
through f none = none
through f (some a) = some (f a)

-- Each variable has the value of the last option for it, and keeps its default without one; the
-- last -p sets three of them.
abbrev pub settings : (Text → ℤ) → List Opt → Options → Options
settings atoi opts o = record {
  interface = or_default (last_of is_i opts) o.interface;
  port = or_default (last_of is_p opts) o.port;
  kiss_device = or_default (last_of is_p opts) o.kiss_device;
  can_device = or_default (last_of is_p opts) o.can_device;
  pipeline_addr = or_default (through atoi (last_of is_a opts)) o.pipeline_addr;
  vmem_dir = or_else (last_of is_v opts) o.vmem_dir;
  baudrate = or_default (through (λ text. to_u32 (atoi text)) (last_of is_b opts)) o.baudrate;
  netmask = or_default (through atoi (last_of is_m opts)) o.netmask;
}

abbrev pub has_unknown : List Opt → Bool
has_unknown [] = false
has_unknown (opt_unknown ∷ opts) = true
has_unknown (opt ∷ opts) = has_unknown opts

default-else :
    {A : Type 0} (a b : Option A) (d : A)
    → or_default (or_else a b) d ≡ or_default a (or_default b d)
default-else none b d = refl
default-else (some a) b d = refl

else-none : {A : Type 0} (a : Option A) → or_else a none ≡ a
else-none none = refl
else-none (some a) = refl

through-else :
    {A B : Type 0} (f : A → B) (a b : Option A)
    → through f (or_else a b) ≡ or_else (through f a) (through f b)
through-else f none b = refl
through-else f (some a) b = refl

else_assoc : {A : Type 0} (a b c : Option A) → or_else (or_else a b) c ≡ or_else a (or_else b c)
else_assoc none b c = refl
else_assoc (some a) b c = refl

ruleset option_laws = (default-else, else-none, through-else, else_assoc)

-- The options and the variables before them are arbitrary. With an unknown option among them the
-- program exits; otherwise each variable has the value of the last option for it, or the value that
-- it had.
pub parse_options-settings :
    (atoi : Text → ℤ) (opts : List Opt) (o : Options)
    → parse_options atoi opts o ≡ (if has_unknown opts then none else some (settings atoi opts o))
unfolding parse_options
parse_options-settings atoi [] o = refl
parse_options-settings atoi (opt_i optarg ∷ opts) o =
    parse_options-settings atoi opts (record o { interface = optarg }) ∙ simp option_laws
parse_options-settings atoi (opt_p optarg ∷ opts) o =
    parse_options-settings atoi opts
      (record o { port = optarg; kiss_device = optarg; can_device = optarg })
    ∙ simp option_laws
parse_options-settings atoi (opt_a optarg ∷ opts) o =
    parse_options-settings atoi opts (record o { pipeline_addr = atoi optarg }) ∙ simp option_laws
parse_options-settings atoi (opt_v optarg ∷ opts) o =
    parse_options-settings atoi opts (record o { vmem_dir = some optarg }) ∙ simp option_laws
parse_options-settings atoi (opt_b optarg ∷ opts) o =
    parse_options-settings atoi opts (record o { baudrate = to_u32 (atoi optarg) })
    ∙ simp option_laws
parse_options-settings atoi (opt_m optarg ∷ opts) o =
    parse_options-settings atoi opts (record o { netmask = atoi optarg }) ∙ simp option_laws
parse_options-settings atoi (opt_unknown ∷ opts) o = refl
