-- ===== src/Sample.antt =====
-- A kernel just booted, for the tests: two endpoints, two device resources and
-- no capability table (kernel/capability.c, kernel/endpoint.c, kernel/device_resource.c).
use jcos.Prelude.{ℕ, zero, suc, ◌≡◌, ◌≢◌, refl, true, false, [], ◌∷◌, arith, replicate}
use jcos.ObjectStorage.{live-occurs, null_not_live}
use jcos.Kernel.{
  Kernel, Thread, Endpoint, IpcMessage, CapabilityType, type_none, type_thread, type_address_space,
  type_endpoint, type_device_resource, audio, result_none, wait_none, invalid, refs_of,
}
use jcos.System.{System, Scheduler, Process, exit_none}
use jcos.Capability.{empty_table, table_live}
use jcos.Capability.Evolve.{IsFresh}
use jcos.Capability.Weights.{weight}
use jcos.Capability.Pins.{IsPinned, held}

abbrev pub no_thread : Thread
no_thread = record {
  id = 0;
  process = 0;
  process_prev = 0;
  process_next = 0;
  state = invalid;
  interrupt_rsp = 0;
  kernel_stack_base = 0;
  kernel_stack_top = 0;
  kernel_stack_size = 0;
  interrupt_context_ready = false;
  wait_kind = wait_none;
  wait_result = result_none;
  wait_object = 0;
  wait_id = 0;
  run_next = 0;
  on_run_queue = false;
  capability_refs = 0;
}

abbrev pub no_message : IpcMessage
no_message = record { words = replicate 4 0; word_count = 0 }

abbrev pub an_endpoint : Endpoint
an_endpoint = record {
  id = 7;
  owner_process_id = 0;
  message = no_message;
  message_ready = false;
  waiting_receiver = 0;
  waiting_receiver_id = 0;
  waiting_sender = 0;
  waiting_sender_id = 0;
  waiting_sender_message = no_message;
  waiting_sender_message_ready = false;
  closed = false;
  initialized = true;
  capability_refs = 0;
}

-- Endpoints at 0x5000 and 0x5100, resources at 0xb000 and 0xb100, and room for three tables.
abbrev pub boot : Kernel
boot = record {
  threads = λ _. no_thread;
  thread_storage = [];
  thread_initialized = false;
  current_thread = 0;
  next_wait_id = 1;
  spaces = λ _. record {
    id = 0;
    root_frame = 0;
    kernel = false;
    destroy_pending = false;
    capability_refs = 0;
  };
  space_storage = [];
  endpoints = λ _. an_endpoint;
  endpoint_storage = 0x5000 ∷ 0x5100 ∷ [];
  endpoint_initialized = true;
  next_endpoint_id = 8;
  resources = λ _. record { id = 3; capability_refs = 0; kind = audio; initialized = true };
  resource_storage = 0xb000 ∷ 0xb100 ∷ [];
  next_resource_id = 4;
  tables = λ _. empty_table;
  table_storage = 0 ∷ 0 ∷ 0 ∷ [];
  next_generation = λ _. 0;
  issuers_initialized = false;
}

boot_no_table : (t : ℕ) → table_live boot t ≡ false
boot_no_table zero = null_not_live (0 ∷ 0 ∷ 0 ∷ [])
boot_no_table (suc t) =
    let nz : suc t ≢ 0 = omega arith in ground (arith, live-occurs (0 ∷ 0 ∷ 0 ∷ []) (suc t) nz)

pub boot-IsFresh : IsFresh boot
boot-IsFresh = record {
  ready = λ t l. absurd (ground (arith, boot_no_table t));
  issued = λ t i l. absurd (ground (arith, boot_no_table t));
  positive = λ r i. absurd (ground arith);
  unique = λ t u i l m o q e. absurd (ground (arith, boot_no_table t));
}

boot_refs : (u : CapabilityType) (o : ℕ) → refs_of boot u o ≡ held boot u o
unfolding held refs_of weight
boot_refs type_none o = refl
boot_refs type_thread o = refl
boot_refs type_address_space o = refl
boot_refs type_endpoint o = refl
boot_refs type_device_resource o = refl

pub boot-IsPinned : IsPinned boot
boot-IsPinned = record {
  counted = λ u o nu. boot_refs u o;
  once = λ t ne. ground arith;
  registry = omega arith;
  typed = λ t i l b o. absurd (ground (arith, boot_no_table t));
}

-- A process at 0x8000 that owns its address space at 0x9000, which has a page-table root.
abbrev pub a_process : Process
a_process = record {
  id = 4;
  address_space = 0x9000;
  capabilities = 0xc000;
  thread_head = 0;
  thread_tail = 0;
  thread_count = 0;
  exit_info = record {
    reason = exit_none;
    process_id = 0;
    thread_id = 0;
    vector = 0;
    error_code = 0;
    rip = 0;
    cr2 = 0;
  };
  exit_queue = 0;
  exit_queue_id = 0;
  kernel = false;
  initialized = true;
}

abbrev pub no_queue : Scheduler
no_queue = record {
  run_head = 0;
  run_tail = 0;
  run_count = 0;
  initialized = true;
  reschedule_count = 0;
  preemption_enabled = false;
  preemption_count = 0;
  idle_wait_count = 0;
  idle_stack_physical = 0;
  idle_stack_base = 0;
  idle_stack_top = 0;
  idle_context_ready = false;
  idle_active = false;
  idle_entry_count = 0;
  idle_resume_count = 0;
}

-- The kernel with that process and an empty run queue.
abbrev pub booted_system : System
booted_system = record {
  kernel = record boot {
    thread_initialized = true;
    spaces = λ _. record {
      id = 3;
      root_frame = 5;
      kernel = false;
      destroy_pending = false;
      capability_refs = 0;
    };
    space_storage = 0x9000 ∷ [];
  };
  scheduler = no_queue;
  processes = λ _. a_process;
  process_storage = 0x8000 ∷ [];
  process_initialized = true;
  kernel_process = 0x8000;
  frames = λ _. record { rax = 0; rip = 0; cs = 0; rflags = 0; rsp = 0; ss = 0 };
  rsp0 = 0;
  cr3 = 0;
  timed_waits = [];
  timer = record { initialized = true; ticks = 0 };
}
