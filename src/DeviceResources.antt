-- ===== src/DeviceResources.antt =====
-- kernel/device_resource.c: device resources, their registry and their identities. Every entry runs
-- under local IRQ exclusion, so it is one step; `device_resource_valid` stands with the record.
mod Tests
use jcos.Prelude.{
  ℕ, zero, suc, ◌+◌, ◌<◌, ◌≡◌, ◌≢◌, refl, ap, Bool, true, false, not, ◌&&◌, ◌||◌, ltb, ◌==◌,
  if◌then◌else◌, nonzero, add64, set, length, List, arith, sym,
}
use jcos.ObjectStorage.{
  object_storage_find, object_storage_empty, object_storage_count, storage_live,
}
use jcos.Kernel.{
  Kernel, DeviceResource, DeviceResourceKind, resource_none, is_resource_none, update, refs_of,
  type_device_resource,
}
use jcos.Capability.{slot_at, table_live}
use jcos.Capability.Pins.{IsPinned, capability_counts}

-- `k_memset(resource, 0, …)`
abbrev pub empty_resource : DeviceResource
empty_resource = record { id = 0; capability_refs = 0; kind = resource_none; initialized = false }

pub device_resource_object_count : Kernel → ℕ
device_resource_object_count k = object_storage_count k.resource_storage

-- The stores of `device_resource_create`.
pub place_resource : Kernel → ℕ → DeviceResourceKind → Kernel
place_resource k resource kind = record k {
  resources =
      update k.resources resource
        (record empty_resource { id = k.next_resource_id; kind = kind; initialized = true });
  next_resource_id = add64 k.next_resource_id 1;
  resource_storage = set k.resource_storage (object_storage_empty k.resource_storage) resource;
}

unfoldable pub device_resource_create : Kernel → ℕ → DeviceResourceKind → Kernel × Bool
unfolding place_resource
device_resource_create k resource kind =
    if not (nonzero resource) || is_resource_none kind
    then (k, false)
    else if ltb (object_storage_empty k.resource_storage) (length k.resource_storage)
        && (object_storage_find k.resource_storage resource == length k.resource_storage)
        && nonzero k.next_resource_id
    then (place_resource k resource kind, true)
    else (k, false)

-- The stores of `device_resource_destroy`.
pub drop_resource : Kernel → ℕ → Kernel
drop_resource k resource = record k {
  resource_storage = set k.resource_storage (object_storage_find k.resource_storage resource) 0;
  resources = update k.resources resource empty_resource;
}

unfoldable pub device_resource_destroy : Kernel → ℕ → Kernel × Bool
unfolding drop_resource
device_resource_destroy k resource =
    if not (nonzero resource)
    then (k, false)
    else if storage_live k.resource_storage resource
        && (k.resources resource).initialized
        && nonzero (k.resources resource).id
        && not (nonzero (k.resources resource).capability_refs)
    then (drop_resource k resource, true)
    else (k, false)

-- No capability outlives its device resource: where the reference counts are exact, after a
-- destruction that succeeded no occupied slot of a live table names the resource.
pub resource_leaves_no_capability :
    (k k' : Kernel) (e t i : ℕ)
    → IsPinned k
    → device_resource_destroy k e ≡ (k', true)
    → table_live k' t ≡ true
    → i < 64
    → (slot_at k' t i).occupied ≡ true
    → (slot_at k' t i).type ≡ type_device_resource
    → (slot_at k' t i).object ≢ e
unfolding device_resource_destroy refs_of
resource_leaves_no_capability k k' e t i p done live b occ typed object =
    let tables : (k'.tables ≡ k.tables)
        × (k'.table_storage ≡ k.table_storage)
        × (refs_of k type_device_resource e ≡ 0) =
      ground arith in
    let slots : slot_at k' t i ≡ slot_at k t i = ap (λ f. (f t).slots i) tables.0 in
    let counted =
      capability_counts k t i type_device_resource e p (rw tables.1 at live) b (rw slots at occ)
        (rw slots at typed) (rw slots at object) (λ h. cc) in
    absurd (omega (arith, tables.2, counted))
