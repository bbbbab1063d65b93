-- ===== src/Kernel.antt =====
-- The kernel objects that capabilities, endpoints and waits share, and the memory that holds them.
-- An object pointer is its address, zero the null pointer; each type of object has its own memory
-- and its own registry of live addresses. Structures keep the fields that the modelled files read.
pub mod Refs
use jcos.Prelude.{
  ℕ, ◌≡◌, ◌+◌, refl, Bool, true, false, not, ◌&&◌, ◌||◌, Option, none, some, List, [], ◌∷◌, ◌==◌,
  if◌then◌else◌, nonzero, arith,
}
use jcos.ObjectStorage.{storage_live}
use jcos.Pmm.{frame_invalid, frame_to_phys}

pub data ThreadState : Type 0 where
  invalid ready running blocked dead : ThreadState

pub data ThreadWaitKind : Type 0 where
  wait_none ipc_receive ipc_send process_exit : ThreadWaitKind

pub data ThreadWaitResult : Type 0 where
  result_none pending cancelled completed peer_closed timed_out : ThreadWaitResult

pub record Thread : Type 0 where
  pub id : ℕ
  pub process : ℕ
  pub process_prev : ℕ
  pub process_next : ℕ
  pub state : ThreadState
  pub interrupt_rsp : ℕ
  pub kernel_stack_base : ℕ
  pub kernel_stack_top : ℕ
  pub kernel_stack_size : ℕ
  pub interrupt_context_ready : Bool
  pub wait_kind : ThreadWaitKind
  pub wait_result : ThreadWaitResult
  pub wait_object : ℕ
  pub wait_id : ℕ
  pub run_next : ℕ
  pub on_run_queue : Bool
  pub capability_refs : ℕ

pub record AddressSpace : Type 0 where
  pub id : ℕ
  pub root_frame : ℕ
  pub kernel : Bool
  pub destroy_pending : Bool
  pub capability_refs : ℕ

-- `words` has IPC_MESSAGE_MAX_WORDS entries.
pub record IpcMessage : Type 0 where
  pub words : List ℕ
  pub word_count : ℕ

pub record Endpoint : Type 0 where
  pub id : ℕ
  pub owner_process_id : ℕ
  pub message : IpcMessage
  pub message_ready : Bool
  pub waiting_receiver : ℕ
  pub waiting_receiver_id : ℕ
  pub waiting_sender : ℕ
  pub waiting_sender_id : ℕ
  pub waiting_sender_message : IpcMessage
  pub waiting_sender_message_ready : Bool
  pub closed : Bool
  pub initialized : Bool
  pub capability_refs : ℕ

pub data DeviceResourceKind : Type 0 where
  resource_none display audio pci_function pci_mmio_bar pci_io_bar pci_irq : DeviceResourceKind
  pci_dma_buffer register_reader : DeviceResourceKind

pub record DeviceResource : Type 0 where
  pub id : ℕ
  pub capability_refs : ℕ
  pub kind : DeviceResourceKind
  pub initialized : Bool

pub data CapabilityType : Type 0 where
  type_none type_thread type_address_space type_endpoint type_device_resource : CapabilityType

pub record CapabilitySlot : Type 0 where
  pub object : ℕ
  pub object_id : ℕ
  pub rights : ℕ
  pub generation : ℕ
  pub type : CapabilityType
  pub occupied : Bool

-- `slots` is indexed below CAPABILITY_TABLE_CAPACITY.
pub record CapabilityTable : Type 0 where
  pub slots : ℕ → CapabilitySlot
  pub count : ℕ
  pub initialized : Bool

-- The objects of each type by address, the registries, and the issuers of identities.
pub record Kernel : Type 0 where
  pub threads : ℕ → Thread
  pub thread_storage : List ℕ
  pub thread_initialized : Bool
  pub current_thread : ℕ
  pub next_wait_id : ℕ
  pub spaces : ℕ → AddressSpace
  pub space_storage : List ℕ
  pub endpoints : ℕ → Endpoint
  pub endpoint_storage : List ℕ
  pub endpoint_initialized : Bool
  pub next_endpoint_id : ℕ
  pub resources : ℕ → DeviceResource
  pub resource_storage : List ℕ
  pub next_resource_id : ℕ
  pub tables : ℕ → CapabilityTable
  pub table_storage : List ℕ
  pub next_generation : ℕ → ℕ
  pub issuers_initialized : Bool

-- A store at one address.
abbrev pub update {ℓ} : {A : Type ℓ} → (ℕ → A) → ℕ → A → ℕ → A
update m a v b = if a == b then v else m b

abbrev pub is_dead : ThreadState → Bool
is_dead dead = true
is_dead _ = false

abbrev pub is_invalid : ThreadState → Bool
is_invalid invalid = true
is_invalid _ = false

abbrev pub is_resource_none : DeviceResourceKind → Bool
is_resource_none resource_none = true
is_resource_none _ = false

-- `==` on the enum.
abbrev pub type_eq : CapabilityType → CapabilityType → Bool
type_eq type_none type_none = true
type_eq type_thread type_thread = true
type_eq type_address_space type_address_space = true
type_eq type_endpoint type_endpoint = true
type_eq type_device_resource type_device_resource = true
type_eq _ _ = false

unfoldable pub device_resource_valid : Kernel → ℕ → Bool
device_resource_valid k resource =
    nonzero resource
    && (k.resources resource).initialized
    && nonzero ((k.resources resource).id)
    && not (is_resource_none ((k.resources resource).kind))
    && storage_live k.resource_storage resource

pub address_space_cr3 : Kernel → ℕ → ℕ
address_space_cr3 k space =
    if not (storage_live k.space_storage space)
      || ((k.spaces space).root_frame == frame_invalid)
      || (k.spaces space).destroy_pending
    then 0
    else frame_to_phys ((k.spaces space).root_frame)

-- `object_refs` of kernel/capability.c: the identity it stores, or `none` where it returns null.
-- The counter that it points at is `refs_of`.
thread_identity : Kernel → ℕ → Bool → Option ℕ
thread_identity k object inserting =
    let t = k.threads object in
    if not (storage_live k.thread_storage object)
      || not (nonzero t.id)
      || not (nonzero t.process)
      || is_invalid t.state
    then none
    else if inserting && is_dead t.state
    then none
    else some t.id

space_identity : Kernel → ℕ → Bool → Option ℕ
space_identity k object inserting =
    let s = k.spaces object in
    if not (storage_live k.space_storage object)
    then none
    else if inserting && (not (nonzero (address_space_cr3 k object)) || s.destroy_pending)
    then none
    else some s.id

endpoint_identity : Kernel → ℕ → Bool → Option ℕ
endpoint_identity k object inserting =
    let e = k.endpoints object in
    if not (storage_live k.endpoint_storage object) || not e.initialized || not (nonzero e.id)
    then none
    else if inserting && e.closed
    then none
    else some e.id

resource_identity : Kernel → ℕ → Option ℕ
unfolding device_resource_valid
resource_identity k object =
    if device_resource_valid k object then some ((k.resources object).id) else none

typed_identity : Kernel → ℕ → CapabilityType → Bool → Option ℕ
unfolding thread_identity space_identity endpoint_identity resource_identity
typed_identity k object type_none inserting = none
typed_identity k object type_thread inserting = thread_identity k object inserting
typed_identity k object type_address_space inserting = space_identity k object inserting
typed_identity k object type_endpoint inserting = endpoint_identity k object inserting
typed_identity k object type_device_resource inserting = resource_identity k object

unfoldable pub object_identity : Kernel → ℕ → CapabilityType → Bool → Option ℕ
unfolding typed_identity
object_identity k object type inserting =
    if nonzero object then typed_identity k object type inserting else none

unfoldable pub refs_of : Kernel → CapabilityType → ℕ → ℕ
refs_of k type_none object = 0
refs_of k type_thread object = (k.threads object).capability_refs
refs_of k type_address_space object = (k.spaces object).capability_refs
refs_of k type_endpoint object = (k.endpoints object).capability_refs
refs_of k type_device_resource object = (k.resources object).capability_refs

-- A store through the pointer that `object_refs` returned.
unfoldable pub set_refs : Kernel → CapabilityType → ℕ → ℕ → Kernel
set_refs k type_none object v = k
set_refs k type_thread object v = record k {
  threads = update k.threads object (record (k.threads object) { capability_refs = v });
}
set_refs k type_address_space object v = record k {
  spaces = update k.spaces object (record (k.spaces object) { capability_refs = v });
}
set_refs k type_endpoint object v = record k {
  endpoints = update k.endpoints object (record (k.endpoints object) { capability_refs = v });
}
set_refs k type_device_resource object v = record k {
  resources = update k.resources object (record (k.resources object) { capability_refs = v });
}
