-- ===== src/Start/Ifaces.antt =====
-- What `main` calls, for each kind of interface.
use dipp.Base.{
  ℕ, ◌≡◌, refl, ap, ◌∙◌, List, [], ◌∷◌, ◌++◌, Option, none, some, Bool, true, false, take,
}
use dipp.Base.Int.{ℤ}
use dipp.Base.Text.{codes}
use dipp.Types.{Text}
use dipp.Start.Options.{Opt, Options, defaults}
use dipp.Start.Defs.{
  Iface, Call, serial_init, csp_init, zmqhub_init, kiss_open, can_open, rtable_set, iflist_add,
  storage_filename, images_filename, bind_service_handler, bind_param_serve, vmem_file_init,
  vmem_ring_init, create_thread, router_task, vmem_server_task, dtp_server_task,
  dtp_indeces_server_task, CspLib, End, goes_on, exits, crashes, open_iface, iface_init, set_paths,
  after_iface, main,
}
use dipp.Start.Parsed.{settings, has_unknown, parse_options-settings}

-- The kinds of interface, each with the text that selects it, its name, and the call that makes it.
pub data Kind : Type 0 where
  zmq kiss can : Kind

abbrev pub selector : Kind → Text
selector zmq = codes "ZMQ"
selector kiss = codes "KISS"
selector can = codes "CAN"

abbrev pub iface_name : Kind → Text
iface_name zmq = codes "zmq"
iface_name kiss = codes "KISS"
iface_name can = codes "CAN"

abbrev pub open_call : Kind → Options → Call
open_call zmq o = zmqhub_init o.port
open_call kiss o = kiss_open o.kiss_device o.baudrate o.netmask o.pipeline_addr
open_call can o = can_open o.can_device o.pipeline_addr

abbrev pub made : Kind → CspLib → Bool
made zmq lib = lib.zmq_ok
made kiss lib = lib.kiss_ok
made can lib = lib.can_ok

abbrev pub iface_of : Kind → Options → Iface
iface_of k o = record { name = iface_name k; addr = o.pipeline_addr; netmask = o.netmask }

-- The paths that the directory of the memory files gives, cut to 511 characters.
abbrev pub path_calls : Option Text → List Call
path_calls none = []
path_calls (some vmem_dir) =
    storage_filename (take 511 (vmem_dir ++ codes "/storage.vmem"))
    ∷ images_filename (take 511 (vmem_dir ++ codes "/images.vmem"))
    ∷ []

-- The two handlers, the two memory files and the four threads.
abbrev pub service_calls : List Call
service_calls =
    bind_service_handler
    ∷ bind_param_serve
    ∷ vmem_file_init
    ∷ vmem_ring_init
    ∷ create_thread router_task
    ∷ create_thread vmem_server_task
    ∷ create_thread dtp_server_task
    ∷ create_thread dtp_indeces_server_task
    ∷ []

-- What follows an interface that could be made, or not.
abbrev pub started : Kind → Options → Bool → List Call × End
started k o true = (
  rtable_set (iface_of k o) ∷ iflist_add (iface_of k o) ∷ (path_calls o.vmem_dir ++ service_calls),
  goes_on,
)
started zmq o false = ([], crashes)
started kiss o false = ([], exits 1)
started can o false = (path_calls o.vmem_dir ++ service_calls, goes_on)

set_paths-path_calls : (dir : Option Text) → set_paths dir ≡ path_calls dir
unfolding set_paths
set_paths-path_calls none = refl
set_paths-path_calls (some vmem_dir) = refl

after_open :
    (lib : CspLib) (k : Kind) (o : Options) (ok : Bool)
    → o.interface ≡ selector k
    → made k lib ≡ ok
    → after_iface ((open_iface lib o).0, (open_iface lib o).1, o.vmem_dir)
      ≡ (open_call k o ∷ (started k o ok).0, (started k o ok).1)
unfolding open_iface after_iface
after_open lib zmq o true e m = rw (e, m, set_paths-path_calls o.vmem_dir) refl
after_open lib zmq o false e m = rw (e, m) refl
after_open lib kiss o true e m = rw (e, m, set_paths-path_calls o.vmem_dir) refl
after_open lib kiss o false e m = rw (e, m) refl
after_open lib can o true e m = rw (e, m, set_paths-path_calls o.vmem_dir) refl
after_open lib can o false e m = rw (e, m, set_paths-path_calls o.vmem_dir) refl

iface_init-settings :
    (lib : CspLib) (atoi : Text → ℤ) (opts : List Opt)
    → has_unknown opts ≡ false
    → iface_init lib atoi opts ≡ (
      (open_iface lib (settings atoi opts defaults)).0,
      (open_iface lib (settings atoi opts defaults)).1,
      (settings atoi opts defaults).vmem_dir,
    )
unfolding iface_init
iface_init-settings lib atoi opts known =
    rw (parse_options-settings atoi opts defaults, known, iface_init) refl

module _ (lib : CspLib) (atoi : Text → ℤ) (rand : ℕ) (opts : List Opt)
    (known : has_unknown opts ≡ false) where
  -- The options as the program reads them.
  abbrev pub chosen : Options
  chosen = settings atoi opts defaults

  -- If all options are known and they name an interface of the program, `main` makes it with the
  -- chosen devices, baudrate, netmask and address. If that succeeds, the interface gets the chosen
  -- address and netmask and the default route, the paths of the memory files are set if a directory
  -- was given, and the two handlers, the two files and the four threads follow. If it fails, the program
  -- crashes for ZMQ, exits for KISS, and goes on without any interface for CAN.
  pub main-started :
      (k : Kind)
      → chosen.interface ≡ selector k
      → main lib atoi rand opts ≡ (
        serial_init rand ∷ csp_init ∷ open_call k chosen ∷ (started k chosen (made k lib)).0,
        (started k chosen (made k lib)).1,
      )
  unfolding main
  main-started k e =
      ap begin (iface_init-settings lib atoi opts known)
      ∙ ap (λ r. (serial_init rand ∷ csp_init ∷ r.0, r.1))
          (after_open lib k chosen (made k lib) e refl)
    where
      begin : List Call × End × Option Text → List Call × End
      begin r = (serial_init rand ∷ csp_init ∷ (after_iface r).0, (after_iface r).1)
