-- ===== src/Start/Defs.antt =====
-- `iface_init`, `main` and `serial_init`, as the calls that they make.
use dipp.Base.{
  ℕ, List, [], ◌∷◌, ◌++◌, Option, none, some, Bool, true, false, ◌==◌, ◌&&◌, if◌then◌else◌, take,
  replicate,
}
use dipp.Base.Int.{ℤ}
use dipp.Base.Text.{codes}
use dipp.Types.{Text}
use dipp.Start.Options.{Opt, Options, defaults, parse_options}

-- The interface that libcsp has made; `name`, `addr` and `netmask` are set by `iface_init`.
pub record Iface : Type 0 where
  pub name : Text
  pub addr : ℤ
  pub netmask : ℤ

-- The threads that `main` creates.
pub data Task : Type 0 where
  router_task vmem_server_task dtp_server_task dtp_indeces_server_task : Task

-- What the threads call.
pub data Work : Type 0 where
  csp_route_work vmem_server_loop dtp_server_main dtp_indeces_server : Work

-- The thread functions: the router works for ever, here for a number of rounds; the others are one
-- call each.
unfoldable run_task : ℕ → Task → List Work
run_task rounds router_task = replicate rounds csp_route_work
run_task rounds vmem_server_task = vmem_server_loop ∷ []
run_task rounds dtp_server_task = dtp_server_main ∷ []
run_task rounds dtp_indeces_server_task = dtp_indeces_server ∷ []

-- The calls that configure something.
pub data Call : Type 0 where
  serial_init : ℕ → Call  -- _serial0 = rand()
  csp_init : Call
  zmqhub_init : Text → Call
  kiss_open : Text → ℕ → ℤ → ℤ → Call  -- device, baudrate, databits, address
  can_open : Text → ℤ → Call  -- device, address
  rtable_set : Iface → Call
  iflist_add : Iface → Call
  storage_filename : Text → Call
  images_filename : Text → Call
  bind_service_handler : Call
  bind_param_serve : Call
  vmem_file_init : Call
  vmem_ring_init : Call
  create_thread : Task → Call

-- What libcsp answers: whether an interface could be made.
pub record CspLib : Type 0 where
  pub zmq_ok : Bool
  pub kiss_ok : Bool
  pub can_ok : Bool

-- How a function ends: it goes on, it has called `exit` with this code, or it has written through a
-- NULL pointer.
pub data End : Type 0 where
  goes_on : End
  exits : ℕ → End
  crashes : End

unfoldable pub eq_text : Text → Text → Bool
eq_text [] [] = true
eq_text (x ∷ xs) (y ∷ ys) = x == y && eq_text xs ys
eq_text _ _ = false

-- The name, the address and the netmask of the interface, the default route, and the list.
unfoldable pub finish_iface : Text → Options → List Call × End
finish_iface name o =
    let iface : Iface = record { name = name; addr = o.pipeline_addr; netmask = o.netmask } in
    (rtable_set iface ∷ iflist_add iface ∷ [], goes_on)

abbrev pub calling : Call → List Call × End → List Call × End
calling call (calls, end) = (call ∷ calls, end)

-- The paths, in buffers of 512 characters.
unfoldable pub set_paths : Option Text → List Call
set_paths none = []
set_paths (some vmem_dir) =
    storage_filename (take 511 (vmem_dir ++ codes "/storage.vmem"))
    ∷ images_filename (take 511 (vmem_dir ++ codes "/images.vmem"))
    ∷ []

abbrev pub serve : List Call
serve =
    bind_service_handler
    ∷ bind_param_serve
    ∷ vmem_file_init
    ∷ vmem_ring_init
    ∷ create_thread router_task
    ∷ create_thread vmem_server_task
    ∷ create_thread dtp_server_task
    ∷ create_thread dtp_indeces_server_task
    ∷ []

-- What follows `iface_init`.
unfoldable pub after_iface : List Call × End × Option Text → List Call × End
unfolding set_paths
after_iface (calls, goes_on, vmem_dir) = (calls ++ (set_paths vmem_dir ++ serve), goes_on)
after_iface (calls, exits code, vmem_dir) = (calls, exits code)
after_iface (calls, crashes, vmem_dir) = (calls, crashes)

module _ (lib : CspLib) where
  -- The three kinds of interface. If none of them is named, `iface` is still NULL.
  unfoldable pub open_iface : Options → List Call × End
  unfolding finish_iface eq_text
  open_iface o =
      if eq_text o.interface (codes "ZMQ")
      then calling (zmqhub_init o.port)
          (if lib.zmq_ok then finish_iface (codes "zmq") o else ([], crashes))
      else (if eq_text o.interface (codes "KISS")
          then calling (kiss_open o.kiss_device o.baudrate o.netmask o.pipeline_addr)
              (if lib.kiss_ok then finish_iface (codes "KISS") o else ([], exits 1))
          else (if eq_text o.interface (codes "CAN")
              then calling (can_open o.can_device o.pipeline_addr)
                  (if lib.can_ok then finish_iface (codes "CAN") o else ([], goes_on))
              else ([], crashes)))

  -- The calls, the end, and `*vmem_dir`.
  unfoldable pub iface_init : (Text → ℤ) → List Opt → List Call × End × Option Text
  unfolding open_iface parse_options
  iface_init atoi opts = elim (parse_options atoi opts defaults) [
    | none ↦ ([], exits 1, none)
    | some o ↦ ((open_iface o).0, (open_iface o).1, o.vmem_dir)
  ]

  -- `main` up to its endless loop.
  unfoldable pub main : (Text → ℤ) → ℕ → List Opt → List Call × End
  unfolding after_iface iface_init
  main atoi rand opts =
      calling (serial_init rand) (calling csp_init (after_iface (iface_init atoi opts)))
