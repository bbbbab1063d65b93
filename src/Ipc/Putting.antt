-- ===== src/Ipc/Putting.antt =====
-- `ipc_send_locked` of kernel/ipc.c puts a message last in the channel, and never halts.
use jcos.Prelude.{
  ℕ, ◌≡◌, refl, sym, ap, subst, true, false, not, ◌&&◌, ◌||◌, Option, none, some, List, [], ◌∷◌,
  nonzero, arith, if_both,
}
use jcos.Kernel.{Kernel, Endpoint, IpcMessage, ipc_receive, pending}
use jcos.Waits.{result_eq}
use jcos.Endpoints.{empty_message, endpoint_try_send, endpoint_message_ready}
use jcos.Endpoints.Mailbox.{sent_message}
use jcos.System.{System, thread_at}
use jcos.Ipc.{
  endpoint_at, with_kernel, ipc_endpoint_valid, ipc_message_valid, ipc_reservation_valid,
  ipc_make_ready, send_wakes, ipc_send_locked,
}
use jcos.Ipc.Leaves.{Leaves, ready-Leaves}
use jcos.Ipc.Channel.{
  messages, channel, IsChannel, Sends, IsOpen, emptied, filled, receive_first, filled-IsOpen,
  Leaves-IsOpen, put_at,
}
use jcos.Ipc.Refill.{filled-IsChannel, sent-IsStored, send_refused, send_done}

send_opened :
    (k : Kernel) (e : ℕ) (m : IpcMessage)
    → not (endpoint_try_send k e m).1 ≡ false
    → IsOpen k e × ((k.endpoints e).message_ready ≡ false)
unfolding endpoint_try_send
send_opened k e m h = ((ground arith, ground arith), ground arith)

-- A channel whose mailbox is empty has no messages.
empty_channel :
    (f : Endpoint)
    → IsChannel f
    → f.message_ready ≡ false
    → (messages f ≡ []) × (f.waiting_sender_message_ready ≡ false)
empty_channel f c h =
    let full = c.full in
    let unstaged : f.waiting_sender_message_ready ≡ false = ground (arith, full) in
    (rw (h, unstaged) refl, unstaged)

-- The only message of a channel.
filled_lem :
    (f : Endpoint) (m : IpcMessage)
    → ipc_message_valid m ≡ true
    → f.message_ready ≡ true
    → f.message ≡ sent_message m
    → f.waiting_sender_message_ready ≡ false
    → (messages f ≡ sent_message m ∷ []) × IsChannel f
filled_lem f m v r same unstaged =
    (rw (r, same, unstaged) refl, filled-IsChannel f (sent_message m) (sent-IsStored m v) same r)

-- A state in which the message is in the mailbox.
record IsPut (s : System) (e : ℕ) (m : IpcMessage) : Type 0 where
  pub op : IsOpen s.kernel e
  pub ready : (endpoint_at s e).message_ready ≡ true
  pub same : (endpoint_at s e).message ≡ sent_message m
  pub unstaged : (endpoint_at s e).waiting_sender_message_ready ≡ false
  pub valid : ipc_message_valid m ≡ true

Leaves-IsPut : (s s' : System) (e : ℕ) (m : IpcMessage) → Leaves s s' → IsPut s e m → IsPut s' e m
Leaves-IsPut s s' e m l p =
    let at : endpoint_at s' e ≡ endpoint_at s e = ap (λ (f : ℕ → Endpoint). f e) l.endpoints in
    record {
      op = Leaves-IsOpen s s' e l p.op;
      ready = rw at p.ready;
      same = rw at p.same;
      unstaged = rw at p.unstaged;
      valid = p.valid;
    }

put_lem : (s : System) (e : ℕ) (m : IpcMessage) → IsPut s e m → Sends [] e m (some (s, true))
put_lem s e m p = filled_lem (endpoint_at s e) m p.valid p.ready p.same p.unstaged

-- The message is taken out again.
undone :
    (s : System) (e : ℕ) (m : IpcMessage)
    → IsPut s e m
    → Sends [] e m (some (with_kernel s (emptied s.kernel e), false))
undone s e m p =
    let f = record (endpoint_at s e) { message = empty_message; message_ready = false } in
    rw (put_at s.kernel e f) (
      rw p.unstaged refl,
      record {
        stored = λ r. absurd (ground arith);
        full = λ st. absurd (ground (arith, p.unstaged));
      },
    )

send_wakes_lem :
    (s : System) (e receiver : ℕ) (m : IpcMessage)
    → IsPut s e m
    → Sends [] e m (send_wakes s e receiver)
unfolding send_wakes
send_wakes_lem s e receiver m p =
    let woken = ipc_make_ready s receiver in
    let p₁ = Leaves-IsPut s woken.0 e m (ready-Leaves s receiver) p in
    if_both (Sends [] e m) (not (nonzero receiver)) (λ _. put_lem s e m p)
      λ _.
        if_both (Sends [] e m) woken.1 (λ _. put_lem woken.0 e m p₁)
          λ _.
            subst
              (λ (o : Kernel × Option IpcMessage).
                Sends [] e m
                  (elim o.1 [ none ↦ none | some _ ↦ some (with_kernel woken.0 o.0, false) ]))
              (sym (receive_first woken.0.kernel e p₁.op p₁.ready)) (undone woken.0 e m p₁)

sent :
    (s : System) (e : ℕ) (m : IpcMessage)
    → IsChannel (endpoint_at s e)
    → not (endpoint_try_send s.kernel e m).1 ≡ false
    → Sends (channel s e) e m (
        send_wakes
          (with_kernel s (endpoint_try_send s.kernel e m).0)
          e
          (endpoint_at s e).waiting_receiver)
sent s e m c h =
    let f = endpoint_at s e in
    let (op, ready) = send_opened s.kernel e m h in
    let (now, valid) = send_done s.kernel e m h in
    let (none_left, unstaged) = empty_channel f c ready in
    let g = record f { message = sent_message m; message_ready = true } in
    let s' = with_kernel s (filled s.kernel e (sent_message m)) in
    let at : endpoint_at s' e ≡ g = put_at s.kernel e g in
    let p : IsPut s' e m = record {
      op = filled-IsOpen s.kernel e (sent_message m) op;
      ready = rw at refl;
      same = rw at refl;
      unstaged = rw at unstaged;
      valid = valid;
    } in
    subst
      (λ (b : List IpcMessage).
        Sends b e m
          (send_wakes (with_kernel s (endpoint_try_send s.kernel e m).0) e f.waiting_receiver))
      (sym none_left)
      (subst (λ k. Sends [] e m (send_wakes (with_kernel s k) e f.waiting_receiver)) (sym now)
        (send_wakes_lem s' e f.waiting_receiver m p))

-- From a channel, a send returns: it leaves the messages as they are, or the message's words are the
-- last of them. The endpoint is a channel again.
pub ipc_send_locked_lem :
    (s : System) (e : ℕ) (m : IpcMessage)
    → IsChannel (endpoint_at s e)
    → Sends (channel s e) e m (ipc_send_locked s e m)
unfolding ipc_send_locked
ipc_send_locked_lem s e m c =
    let f = endpoint_at s e in
    let P = Sends (channel s e) e m in
    let sending = endpoint_try_send s.kernel e m in
    let same : P (some (s, false)) = (refl, c) in
    if_both P
      (not (ipc_endpoint_valid s e)
        || not (ipc_message_valid m)
        || f.closed
        || endpoint_message_ready s.kernel e
        || not (ipc_reservation_valid s e ipc_receive))
      (λ _. same)
      λ _.
        if_both P
          (nonzero f.waiting_receiver
            && not (result_eq (thread_at s f.waiting_receiver).wait_result pending))
          (λ _. same)
          λ _.
            if_both P (not sending.1)
              (λ h.
                subst (λ k. P (some (with_kernel s k, false))) (sym (send_refused s.kernel e m h))
                  same)
              (λ h. sent s e m c h)
