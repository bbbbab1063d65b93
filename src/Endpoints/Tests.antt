-- ===== src/Endpoints/Tests.antt =====
-- Concrete runs of kernel/endpoint.c: one endpoint created at 0x5000.
use jcos.Prelude.{ℕ, zero, suc, ◌≡◌, ◌≢◌, refl, true, false, List, [], ◌∷◌, some, arith}
use jcos.ObjectStorage.{
  storage_live, object_storage_find, object_storage_empty, live-occurs, null_not_live,
}
use jcos.Kernel.{Kernel, IpcMessage, type_endpoint, object_identity, refs_of, set_refs}
use jcos.Sample.{boot, boot-IsPinned}
use jcos.Capability.Calls.{Call, run, step, inits, inserts}
use jcos.Capability.Counts.{run-IsPinned}
use jcos.Capability.{
  slot_at, table_live, capability_table_init, install_table, capability_insert, table_valid,
  count_slots, insert_loop, count_is, type_valid, take_generation, make_handle, grant_slot,
  slot_refs,
}
use jcos.Endpoints.{
  endpoint_try_send, endpoint_try_receive, endpoint_message_ready, endpoint_destroy, empty_endpoint,
}
use jcos.Endpoints.Mailbox.{receive-send}
use jcos.Endpoints.Identity.{IsNamed, endpoint_run, creates, destroys, sends, receives, run-IsNamed}
use jcos.Endpoints.Lifetime.{destroy_leaves_no_capability}

-- No endpoint yet, and room for two.
abbrev no_endpoints : Kernel
no_endpoints = record boot {
  endpoints = λ _. empty_endpoint;
  endpoint_storage = 0 ∷ 0 ∷ [];
  next_endpoint_id = 1;
}

none_live : (e : ℕ) → storage_live (0 ∷ 0 ∷ []) e ≡ false
none_live zero = null_not_live (0 ∷ 0 ∷ [])
none_live (suc e) =
    let nz : suc e ≢ 0 = omega arith in ground (arith, live-occurs (0 ∷ 0 ∷ []) (suc e) nz)

no_endpoints-IsNamed : IsNamed no_endpoints
no_endpoints-IsNamed = record {
  word = omega arith;
  named = λ e l. absurd (ground (arith, none_live e));
  once = λ e ne. ground arith;
  distinct = λ d e l m same. absurd (ground (arith, none_live d));
}

abbrev two_words : IpcMessage
two_words = record { words = 11 ∷ 22 ∷ 33 ∷ 44 ∷ []; word_count = 2 }

run-IsNamed_example : IsNamed (
    endpoint_run no_endpoints (
      creates 0x5000
      ∷ sends 0x5000 two_words
      ∷ receives 0x5000
      ∷ destroys 0x5000
      ∷ creates 0x6000
      ∷ []))
run-IsNamed_example =
    run-IsNamed no_endpoints
      (creates 0x5000
        ∷ sends 0x5000 two_words
        ∷ receives 0x5000
        ∷ destroys 0x5000
        ∷ creates 0x6000
        ∷ [])
      no_endpoints-IsNamed

-- `boot` has an endpoint at 0x5000.
abbrev after_send : Kernel
after_send = (endpoint_try_send boot 0x5000 two_words).0

send_runs : endpoint_try_send boot 0x5000 two_words ≡ (after_send, true)
unfolding endpoint_try_send storage_live object_storage_find
send_runs = refl

receive-send_example :
    ((endpoint_try_receive after_send 0x5000).1
      ≡ some (record { words = 11 ∷ 22 ∷ 0 ∷ 0 ∷ []; word_count = 2 }))
    × (endpoint_message_ready (endpoint_try_receive after_send 0x5000).0 0x5000 ≡ false)
    × (endpoint_try_send after_send 0x5000 two_words ≡ (after_send, false))
receive-send_example = receive-send boot after_send 0x5000 two_words two_words send_runs

-- A table at 0x9000 whose first slot names the other endpoint.
abbrev calls : List Call
calls = inits 0x9000 ∷ inserts 0x9000 0x5100 type_endpoint 3 ∷ []

abbrev destroyed : Kernel
destroyed = (endpoint_destroy (run boot calls) 0x5000).0

destroy_runs : endpoint_destroy (run boot calls) 0x5000 ≡ (destroyed, true)
unfolding run step capability_table_init install_table capability_insert table_valid count_slots
    object_identity insert_loop storage_live object_storage_find object_storage_empty count_is
    type_valid take_generation make_handle grant_slot slot_refs refs_of set_refs endpoint_destroy
destroy_runs = refl

slot_found :
    (table_live destroyed 0x9000 ≡ true)
    × ((slot_at destroyed 0x9000 0).occupied ≡ true)
    × ((slot_at destroyed 0x9000 0).type ≡ type_endpoint)
unfolding run step capability_table_init install_table capability_insert table_valid count_slots
    object_identity insert_loop storage_live object_storage_find object_storage_empty count_is
    type_valid take_generation make_handle grant_slot slot_refs refs_of set_refs endpoint_destroy
slot_found = (refl, refl, refl)

destroy_leaves_no_capability_example : (slot_at destroyed 0x9000 0).object ≢ 0x5000
destroy_leaves_no_capability_example =
    destroy_leaves_no_capability (run boot calls) destroyed 0x5000 0x9000 0
      (run-IsPinned boot calls boot-IsPinned) destroy_runs slot_found.0 (omega arith) slot_found.1
      slot_found.2
