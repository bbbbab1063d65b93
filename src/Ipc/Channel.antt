-- ===== src/Ipc/Channel.antt =====
-- kernel/ipc.c: an endpoint is a first-in-first-out channel of at most two messages, the one in its
-- mailbox and the one that a waiting sender has staged.
use jcos.Prelude.{
  ℕ, ◌≡◌, refl, Bool, true, false, Option, none, some, List, [], ◌∷◌, ◌++◌, if◌then◌else◌, arith,
}
use jcos.Kernel.{Kernel, Endpoint, IpcMessage}
use jcos.Endpoints.{
  empty_message, endpoint_usable, endpoint_try_send, endpoint_try_receive, put_endpoint,
}
use jcos.Endpoints.Mailbox.{sent_message}
use jcos.System.{System}
use jcos.Ipc.{endpoint_at, ipc_message_valid}
use jcos.Ipc.Leaves.{Leaves}

-- The messages of an endpoint, the next one first.
abbrev pub slot : Bool → IpcMessage → List IpcMessage
slot ready m = if ready then m ∷ [] else []

abbrev pub messages : Endpoint → List IpcMessage
messages f =
    slot f.message_ready f.message
    ++ slot f.waiting_sender_message_ready (sent_message f.waiting_sender_message)

abbrev pub channel : System → ℕ → List IpcMessage
channel s e = messages (endpoint_at s e)

-- The mailbox holds what a send stored, and a message is staged only where the mailbox is full.
pub record IsChannel (f : Endpoint) : Type 0 where
  pub stored :
      f.message_ready ≡ true
      → (sent_message f.message ≡ f.message) × (ipc_message_valid f.message ≡ true)
  pub full : f.waiting_sender_message_ready ≡ true → f.message_ready ≡ true

-- The call returns; where it hands a message out, that is the channel's first.
abbrev pub Receives : List IpcMessage → ℕ → Option (System × Option IpcMessage) → Type 0
Receives before e none = false ≡ true
Receives before e (some (s', none)) = (channel s' e ≡ before) × IsChannel (endpoint_at s' e)
Receives before e (some (s', some m)) = (before ≡ m ∷ channel s' e) × IsChannel (endpoint_at s' e)

-- The call returns; where it succeeds, the message is the channel's last.
abbrev pub Sends : List IpcMessage → ℕ → IpcMessage → Option (System × Bool) → Type 0
Sends before e m none = false ≡ true
Sends before e m (some (s', false)) = (channel s' e ≡ before) × IsChannel (endpoint_at s' e)
Sends before e m (some (s', true)) =
    (channel s' e ≡ before ++ sent_message m ∷ []) × IsChannel (endpoint_at s' e)

abbrev pub IsOpen : Kernel → ℕ → Type 0
IsOpen k e = (endpoint_usable k e ≡ true) × ((k.endpoints e).closed ≡ false)

abbrev pub emptied : Kernel → ℕ → Kernel
emptied k e =
    put_endpoint k e (record (k.endpoints e) { message = empty_message; message_ready = false })

abbrev pub filled : Kernel → ℕ → IpcMessage → Kernel
filled k e m = put_endpoint k e (record (k.endpoints e) { message = m; message_ready = true })

pub receive_first :
    (k : Kernel) (e : ℕ)
    → IsOpen k e
    → (k.endpoints e).message_ready ≡ true
    → endpoint_try_receive k e ≡ (emptied k e, some (k.endpoints e).message)
unfolding endpoint_try_receive
receive_first k e (usable, opened) h = rw (usable, opened, h) refl

pub send_last :
    (k : Kernel) (e : ℕ) (m : IpcMessage)
    → IsOpen k e
    → (k.endpoints e).message_ready ≡ false
    → ipc_message_valid m ≡ true
    → endpoint_try_send k e m ≡ (filled k e (sent_message m), true)
unfolding endpoint_try_send ipc_message_valid
send_last k e m (usable, opened) h v = ground arith

pub emptied-IsOpen : (k : Kernel) (e : ℕ) → IsOpen k e → IsOpen (emptied k e) e
unfolding endpoint_usable put_endpoint
emptied-IsOpen k e (usable, opened) = (ground arith, ground arith)

pub filled-IsOpen : (k : Kernel) (e : ℕ) (m : IpcMessage) → IsOpen k e → IsOpen (filled k e m) e
unfolding endpoint_usable put_endpoint
filled-IsOpen k e m (usable, opened) = (ground arith, ground arith)

pub Leaves-IsOpen : (s s' : System) (e : ℕ) → Leaves s s' → IsOpen s.kernel e → IsOpen s'.kernel e
unfolding endpoint_usable
Leaves-IsOpen s s' e l (usable, opened) =
    rw (l.endpoints, l.storage, l.initialized) (usable, opened)

pub put_at : (k : Kernel) (e : ℕ) (f : Endpoint) → (put_endpoint k e f).endpoints e ≡ f
unfolding put_endpoint
put_at k e f = ground arith
