-- ===== src/DeviceResources/Tests.antt =====
-- A concrete run of kernel/device_resource.c: two resources, of which one is held by a capability.
use jcos.Prelude.{◌≡◌, ◌≢◌, refl, true, List, [], ◌∷◌, arith}
use jcos.ObjectStorage.{storage_live, object_storage_find, object_storage_empty}
use jcos.Kernel.{
  Kernel, type_device_resource, object_identity, refs_of, set_refs, device_resource_valid,
}
use jcos.Sample.{boot, boot-IsPinned}
use jcos.Capability.Calls.{Call, run, step, inits, inserts}
use jcos.Capability.Counts.{run-IsPinned}
use jcos.Capability.{
  slot_at, table_live, capability_table_init, install_table, capability_insert, table_valid,
  count_slots, insert_loop, count_is, type_valid, take_generation, make_handle, grant_slot,
  slot_refs,
}
use jcos.DeviceResources.{device_resource_destroy, resource_leaves_no_capability}

abbrev calls : List Call
calls = inits 0x9000 ∷ inserts 0x9000 0xb100 type_device_resource 3 ∷ []

abbrev destroyed : Kernel
destroyed = (device_resource_destroy (run boot calls) 0xb000).0

destroy_runs : device_resource_destroy (run boot calls) 0xb000 ≡ (destroyed, true)
unfolding run step capability_table_init install_table capability_insert table_valid count_slots
    object_identity insert_loop storage_live object_storage_find object_storage_empty count_is
    type_valid take_generation make_handle grant_slot slot_refs refs_of set_refs
    device_resource_destroy device_resource_valid
destroy_runs = refl

slot_found :
    (table_live destroyed 0x9000 ≡ true)
    × ((slot_at destroyed 0x9000 0).occupied ≡ true)
    × ((slot_at destroyed 0x9000 0).type ≡ type_device_resource)
unfolding run step capability_table_init install_table capability_insert table_valid count_slots
    object_identity insert_loop storage_live object_storage_find object_storage_empty count_is
    type_valid take_generation make_handle grant_slot slot_refs refs_of set_refs
    device_resource_destroy device_resource_valid
slot_found = (refl, refl, refl)

resource_leaves_no_capability_example : (slot_at destroyed 0x9000 0).object ≢ 0xb000
resource_leaves_no_capability_example =
    resource_leaves_no_capability (run boot calls) destroyed 0xb000 0x9000 0
      (run-IsPinned boot calls boot-IsPinned) destroy_runs slot_found.0 (omega arith) slot_found.1
      slot_found.2
