-- ===== src/Storage/Tests.antt =====
-- Two parameters of src/include/vmem/vmem_storage.h.
use dipp.Base.{refl, arith, ◌≤◌, ◌≢◌, ◌+◌}
use dipp.Storage.Defs.{radio_node_id, module_timeout, storage_size}
use dipp.Storage.Disjoint.{Apart, stored_params-Apart}

stored_params-Apart_example :
    (radio_node_id.id ≢ module_timeout.id)
    × Apart radio_node_id module_timeout
    × (radio_node_id.address + radio_node_id.size ≤ storage_size)
stored_params-Apart_example =
    stored_params-Apart 27 28 radio_node_id module_timeout refl refl (omega arith)
