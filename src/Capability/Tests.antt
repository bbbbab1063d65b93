-- ===== src/Capability/Tests.antt =====
-- Concrete runs of kernel/capability.c: a booted kernel with one endpoint, and two tables.
use jcos.Sample.{boot, boot-IsFresh, boot-IsPinned}
use jcos.Prelude.{ℕ, ◌^◌, ◌<◌, ◌≡◌, refl, true, List, [], ◌∷◌, none, some, arith}
use jcos.ObjectStorage.{storage_live, object_storage_find, object_storage_empty}
use jcos.Kernel.{Kernel, type_endpoint, refs_of, object_identity, set_refs}
use jcos.Capability.{
  capability_table_init, install_table, table_valid, count_slots, count_is, insert_loop,
  resolve_slot, take_generation, make_handle, grant_slot, type_valid, slot_refs, capability_insert,
  capability_revoke, capability_lookup_rights,
}
use jcos.Capability.Lookup.{lookup-insert}
use jcos.Capability.Evolve.{IsFresh}
use jcos.Capability.Calls.{Call, step, run, inits, inserts, destroys, revokes_all}
use jcos.Capability.Stale.{run-IsFresh, revoked_never_resolves}
use jcos.Capability.Pins.{IsPinned}
use jcos.Capability.Counts.{run-IsPinned}

-- A table at 0x9000 with one grant of the endpoint.
abbrev one_grant : List Call
one_grant = inits 0x9000 ∷ inserts 0x9000 0x5000 type_endpoint 3 ∷ []

abbrev granted : Kernel
granted = run boot one_grant

abbrev first_handle : ℕ
first_handle = 0x100000000

-- The slot is reused through another table and the first one again.
abbrev reuse : List Call
reuse =
    inits 0xa000
    ∷ inserts 0x9000 0x5000 type_endpoint 3
    ∷ inserts 0xa000 0x5000 type_endpoint 1
    ∷ revokes_all 0x9000
    ∷ destroys 0x9000
    ∷ inits 0x9000
    ∷ inserts 0x9000 0x5000 type_endpoint 3
    ∷ []

abbrev before_grant : Kernel
before_grant = run boot (inits 0x9000 ∷ [])

run-IsFresh_example : IsFresh granted
run-IsFresh_example = run-IsFresh boot one_grant boot-IsFresh

run-IsPinned_example : IsPinned (run granted reuse)
run-IsPinned_example = run-IsPinned granted reuse (run-IsPinned boot one_grant boot-IsPinned)

before_refs : refs_of before_grant type_endpoint 0x5000 < 2 ^ 64
unfolding run step capability_table_init install_table refs_of storage_live object_storage_empty
before_refs = omega arith

-- The first insertion takes generation one of slot zero.
insert_runs :
    capability_insert before_grant 0x9000 0x5000 type_endpoint 3 ≡ some (granted, first_handle)
unfolding run step capability_table_init install_table capability_insert table_valid count_slots
    object_identity insert_loop storage_live object_storage_find object_storage_empty count_is
    type_valid take_generation make_handle grant_slot slot_refs refs_of set_refs
insert_runs = refl

revoke_runs :
    capability_revoke granted 0x9000 first_handle
    ≡ ((capability_revoke granted 0x9000 first_handle).0, true)
unfolding run step capability_table_init install_table capability_insert table_valid count_slots
    object_identity insert_loop storage_live object_storage_find object_storage_empty count_is
    type_valid take_generation make_handle grant_slot slot_refs refs_of set_refs capability_revoke
    resolve_slot
revoke_runs = refl

lookup-insert_example :
    capability_lookup_rights granted 0x9000 first_handle type_endpoint 1 ≡ some 0x5000
lookup-insert_example =
    lookup-insert before_grant 0x9000 0x5000 type_endpoint 3 1 before_refs insert_runs

revoked_never_resolves_example :
    capability_lookup_rights
      (run (capability_revoke granted 0x9000 first_handle).0 reuse)
      0x9000
      first_handle
      type_endpoint
      0
    ≡ none
revoked_never_resolves_example =
    revoked_never_resolves granted (capability_revoke granted 0x9000 first_handle).0 0x9000
      first_handle (run-IsFresh boot one_grant boot-IsFresh) revoke_runs reuse 0x9000 type_endpoint
      0
