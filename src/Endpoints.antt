-- ===== src/Endpoints.antt =====
-- kernel/endpoint.c: one-message endpoints, their registry and their identities. Every entry runs
-- under local IRQ exclusion, its own or its caller's, so it is one step.
pub mod Mailbox
pub mod Lifetime
pub mod Identity
mod Tests
use jcos.Prelude.{
  ℕ, zero, suc, ◌+◌, ◌-◌, ◌≡◌, refl, Bool, true, false, not, ◌&&◌, ◌||◌, Option, none, some, List,
  [], ◌∷◌, ltb, ◌==◌, if◌then◌else◌, nonzero, add64, set, get_or, length, replicate,
}
use jcos.ObjectStorage.{
  object_storage_find, object_storage_empty, object_storage_count, storage_live,
}
use jcos.Kernel.{Kernel, Endpoint, IpcMessage, update}

-- IPC_MESSAGE_MAX_WORDS
abbrev pub message_max_words : ℕ
message_max_words = 4

-- `k_memset(message, 0, …)`
abbrev pub empty_message : IpcMessage
empty_message = record { words = replicate message_max_words 0; word_count = 0 }

-- `k_memset(endpoint, 0, …)`
abbrev pub empty_endpoint : Endpoint
empty_endpoint = record {
  id = 0;
  owner_process_id = 0;
  message = empty_message;
  message_ready = false;
  waiting_receiver = 0;
  waiting_receiver_id = 0;
  waiting_sender = 0;
  waiting_sender_id = 0;
  waiting_sender_message = empty_message;
  waiting_sender_message_ready = false;
  closed = false;
  initialized = false;
  capability_refs = 0;
}

abbrev pub endpoint_live : Kernel → ℕ → Bool
endpoint_live k endpoint = storage_live k.endpoint_storage endpoint

pub endpoint_object_count : Kernel → ℕ
endpoint_object_count k = object_storage_count k.endpoint_storage

pub endpoint_system_init : Kernel → Kernel × Bool
endpoint_system_init k =
    if k.endpoint_initialized
    then (k, false)
    else (record k { next_endpoint_id = 1; endpoint_initialized = true }, true)

-- The stores of `endpoint_create_locked`: identity exhaustion leaves zero.
pub place_endpoint : Kernel → ℕ → ℕ → Kernel
place_endpoint k endpoint owner = record k {
  endpoints = update k.endpoints endpoint (record empty_endpoint {
    id = k.next_endpoint_id;
    owner_process_id = owner;
    initialized = true;
  });
  next_endpoint_id = add64 k.next_endpoint_id 1;
  endpoint_storage = set k.endpoint_storage (object_storage_empty k.endpoint_storage) endpoint;
}

pub endpoint_create_locked : Kernel → ℕ → ℕ → Kernel × Bool
unfolding place_endpoint
endpoint_create_locked k endpoint owner =
    if not k.endpoint_initialized
      || not (nonzero endpoint)
      || not (nonzero k.next_endpoint_id)
      || endpoint_live k endpoint
    then (k, false)
    else if object_storage_empty k.endpoint_storage == length k.endpoint_storage
    then (k, false)
    else (place_endpoint k endpoint owner, true)

pub endpoint_create : Kernel → ℕ → Kernel × Bool
unfolding endpoint_create_locked
endpoint_create k endpoint = endpoint_create_locked k endpoint 0

-- `capable` is `process_capabilities(owner) != 0`, and `owner` is `owner->id`.
pub endpoint_create_owned : Kernel → ℕ → Bool → ℕ → Kernel × Bool
unfolding endpoint_create_locked
endpoint_create_owned k endpoint capable owner =
    if capable && nonzero owner then endpoint_create_locked k endpoint owner else (k, false)

-- The tests that every entry on an endpoint begins with.
unfoldable pub endpoint_usable : Kernel → ℕ → Bool
endpoint_usable k endpoint =
    k.endpoint_initialized
    && endpoint_live k endpoint
    && (k.endpoints endpoint).initialized
    && nonzero (k.endpoints endpoint).id

-- Nothing refers to the endpoint, and nothing waits in it.
pub endpoint_idle : Endpoint → Bool
endpoint_idle e =
    not (nonzero e.capability_refs)
    && not e.message_ready
    && not (nonzero e.waiting_receiver || nonzero e.waiting_receiver_id)
    && not (nonzero e.waiting_sender || nonzero e.waiting_sender_id)
    && not e.waiting_sender_message_ready

-- The stores of `endpoint_destroy_locked`.
pub drop_endpoint : Kernel → ℕ → Kernel
drop_endpoint k endpoint = record k {
  endpoint_storage = set k.endpoint_storage (object_storage_find k.endpoint_storage endpoint) 0;
  endpoints = update k.endpoints endpoint empty_endpoint;
}

pub endpoint_destroy : Kernel → ℕ → Kernel × Bool
unfolding endpoint_usable endpoint_idle drop_endpoint
endpoint_destroy k endpoint =
    if endpoint_usable k endpoint && endpoint_idle (k.endpoints endpoint)
    then (drop_endpoint k endpoint, true)
    else (k, false)

-- The copying loop of `endpoint_try_send`, from word `i` on.
unfoldable pub copy_words : List ℕ → List ℕ → ℕ → ℕ → List ℕ
copy_words to from zero i = to
copy_words to from (suc left) i = copy_words (set to i (get_or from i 0)) from left (i + 1)

unfoldable pub put_endpoint : Kernel → ℕ → Endpoint → Kernel
put_endpoint k endpoint e = record k { endpoints = update k.endpoints endpoint e }

unfoldable pub endpoint_try_send : Kernel → ℕ → IpcMessage → Kernel × Bool
unfolding endpoint_usable copy_words put_endpoint
endpoint_try_send k endpoint message =
    let e = k.endpoints endpoint in
    if not (endpoint_usable k endpoint) || e.closed
    then (k, false)
    else if not (nonzero message.word_count) || ltb message_max_words message.word_count
    then (k, false)
    else if e.message_ready
    then (k, false)
    else (
      put_endpoint k endpoint (record e {
        message = record {
          words = copy_words (replicate message_max_words 0) message.words message.word_count 0;
          word_count = message.word_count;
        };
        message_ready = true;
      }),
      true,
    )

-- The message, or `none` for the return value false, which clears the caller's buffer.
unfoldable pub endpoint_try_receive : Kernel → ℕ → Kernel × Option IpcMessage
unfolding endpoint_usable put_endpoint
endpoint_try_receive k endpoint =
    let e = k.endpoints endpoint in
    if not (endpoint_usable k endpoint) || e.closed
    then (k, none)
    else if not e.message_ready
    then (k, none)
    else (
      put_endpoint k endpoint (record e { message = empty_message; message_ready = false }),
      some e.message,
    )

unfoldable pub endpoint_message_ready : Kernel → ℕ → Bool
unfolding endpoint_usable
endpoint_message_ready k endpoint =
    if not (endpoint_usable k endpoint) then false else (k.endpoints endpoint).message_ready

pub endpoint_receiver_waiting : Kernel → ℕ → Bool
unfolding endpoint_usable
endpoint_receiver_waiting k endpoint =
    if not (endpoint_usable k endpoint)
    then false
    else nonzero (k.endpoints endpoint).waiting_receiver

pub endpoint_sender_waiting : Kernel → ℕ → Bool
unfolding endpoint_usable
endpoint_sender_waiting k endpoint =
    if not (endpoint_usable k endpoint)
    then false
    else nonzero (k.endpoints endpoint).waiting_sender

pub endpoint_closed : Kernel → ℕ → Bool
unfolding endpoint_usable
endpoint_closed k endpoint =
    if not (endpoint_usable k endpoint) then false else (k.endpoints endpoint).closed

-- Zero where the endpoint is not one.
pub endpoint_owner_process_id : Kernel → ℕ → ℕ
endpoint_owner_process_id k endpoint =
    let e = k.endpoints endpoint in
    if endpoint_live k endpoint && e.initialized && nonzero e.id then e.owner_process_id else 0

-- The test in the loops over the registry.
abbrev pub owned_by : Kernel → ℕ → ℕ → Bool
owned_by k owner endpoint =
    let e = k.endpoints endpoint in
    nonzero endpoint && e.initialized && nonzero e.id && (e.owner_process_id == owner)

-- The loop of `endpoint_owned_from` on the entries that are left; zero is the null pointer.
owned_in : Kernel → ℕ → List ℕ → ℕ
owned_in k owner [] = 0
owned_in k owner (a ∷ slots) =
    let rest = owned_in k owner slots in if owned_by k owner a then a else rest

abbrev tail_from : ℕ → List ℕ → List ℕ
tail_from zero xs = xs
tail_from (suc i) [] = []
tail_from (suc i) (x ∷ xs) = tail_from i xs

pub endpoint_owned_from : Kernel → ℕ → ℕ → ℕ
unfolding owned_in
endpoint_owned_from k owner start =
    if not (nonzero owner) then 0 else owned_in k owner (tail_from start k.endpoint_storage)

pub endpoint_owned_first : Kernel → ℕ → ℕ
unfolding endpoint_owned_from
endpoint_owned_first k owner = endpoint_owned_from k owner 0

pub endpoint_owned_next : Kernel → ℕ → ℕ → ℕ
unfolding endpoint_owned_from
endpoint_owned_next k owner endpoint =
    let slot = object_storage_find k.endpoint_storage endpoint in
    if ltb slot (length k.endpoint_storage)
      && ((k.endpoints endpoint).owner_process_id == owner)
      && ltb (slot + 1) (length k.endpoint_storage)
    then endpoint_owned_from k owner (slot + 1)
    else 0

any_open : Kernel → ℕ → List ℕ → Bool
any_open k owner [] = false
any_open k owner (a ∷ slots) =
    let rest = any_open k owner slots in
    if owned_by k owner a && not (k.endpoints a).closed then true else rest

pub endpoint_process_has_open_owned : Kernel → ℕ → Bool
unfolding any_open
endpoint_process_has_open_owned k owner =
    if nonzero owner then any_open k owner k.endpoint_storage else false
