-- ===== src/Ipc/Taking.antt =====
-- `ipc_receive_locked` of kernel/ipc.c takes the first message of the channel, and never halts.
use jcos.Prelude.{
  ℕ, ◌≡◌, refl, sym, ◌∙◌, ap, subst, Bool, true, false, not, ◌&&◌, ◌||◌, Option, none, some, List,
  ◌∷◌, ◌==◌, nonzero, arith, if_both,
}
use jcos.Kernel.{Kernel, Endpoint, IpcMessage, ThreadWaitResult, ipc_receive, ipc_send, pending}
use jcos.Waits.{result_eq, thread_wait_matches_id}
use jcos.Endpoints.{empty_message, endpoint_usable, endpoint_message_ready}
use jcos.System.{System, thread_at}
use jcos.Ipc.{
  endpoint_at, with_kernel, ipc_endpoint_valid, ipc_reservation_valid, refill, receive_refused,
  ipc_receive_locked,
}
use jcos.Ipc.Channel.{
  messages, channel, IsChannel, Receives, IsOpen, emptied, receive_first, emptied-IsOpen, put_at,
}
use jcos.Ipc.Refill.{IsLinked, refill_lem, put_endpoint-IsWaiting}

-- What the tests of the call leave.
record IsTakeable (s : System) (e : ℕ) : Type 0 where
  pub op : IsOpen s.kernel e
  pub ready : (endpoint_at s e).message_ready ≡ true
  pub link : IsLinked s e

ready_parts :
    (k : Kernel) (e : ℕ)
    → endpoint_message_ready k e ≡ true
    → (endpoint_usable k e ≡ true) × ((k.endpoints e).message_ready ≡ true)
unfolding endpoint_message_ready
ready_parts k e h = (ground arith, ground arith)

-- A valid reservation is the thread's wait.
reservation-matches :
    (s : System) (e : ℕ)
    → ipc_reservation_valid s e ipc_send ≡ true
    → nonzero (endpoint_at s e).waiting_sender ≡ true
    → thread_wait_matches_id s.kernel
        (endpoint_at s e).waiting_sender
        ipc_send
        e
        (endpoint_at s e).waiting_sender_id
      ≡ true
unfolding ipc_reservation_valid
reservation-matches s e h n = ground arith

pends_is : (r : ThreadWaitResult) → result_eq r pending ≡ true → r ≡ pending
pends_is r h = ground arith

-- A test of eight parts passes when each part does: the four that are needed.
parts :
    (a b c d e f g h : Bool)
    → (a || b || c || d || e || f || g || h) ≡ false
    → (b ≡ false) × (d ≡ false) × (f ≡ false) × (g ≡ false)
parts a b c d e f g h p = (ground arith, ground arith, ground arith, ground arith)

staged_parts : (a n p : Bool) → (a && (not n || not p)) ≡ false → a ≡ true → (n ≡ true) × (p ≡ true)
staged_parts a n p h st = (ground arith, ground arith)

true_of_not : (a : Bool) → not a ≡ false → a ≡ true
true_of_not a h = ground arith

record IsAccepted (s : System) (e : ℕ) : Type 0 where
  pub ready : endpoint_message_ready s.kernel e ≡ true
  pub opened : (endpoint_at s e).closed ≡ false
  pub reserved : ipc_reservation_valid s e ipc_send ≡ true
  pub pends :
      (endpoint_at s e).waiting_sender_message_ready ≡ true
      → (nonzero (endpoint_at s e).waiting_sender ≡ true)
        × (result_eq (thread_at s (endpoint_at s e).waiting_sender).wait_result pending ≡ true)

accepted : (s : System) (e current : ℕ) → receive_refused s e current ≡ false → IsAccepted s e
unfolding receive_refused
accepted s e current h =
    let f = endpoint_at s e in
    let pends = result_eq (thread_at s f.waiting_sender).wait_result pending in
    let n = nonzero f.waiting_sender in
    let (opened, reserved, ready, staged) =
      parts (not (ipc_endpoint_valid s e)) f.closed (not (ipc_reservation_valid s e ipc_receive))
        (not (ipc_reservation_valid s e ipc_send))
        (nonzero f.waiting_receiver
          && (not (f.waiting_receiver == current)
              || not (result_eq (thread_at s f.waiting_receiver).wait_result pending)))
        (not (endpoint_message_ready s.kernel e))
        (f.waiting_sender_message_ready && (not n || not pends))
        (n && pends && not f.waiting_sender_message_ready) h in
    record {
      ready = true_of_not (endpoint_message_ready s.kernel e) ready;
      opened = opened;
      reserved = true_of_not (ipc_reservation_valid s e ipc_send) reserved;
      pends = staged_parts f.waiting_sender_message_ready n pends staged;
    }

accepted-IsTakeable :
    (s : System) (e current : ℕ) → receive_refused s e current ≡ false → IsTakeable s e
unfolding IsLinked
accepted-IsTakeable s e current h =
    let a = accepted s e current h in
    let (usable, ready) = ready_parts s.kernel e a.ready in
    record {
      op = (usable, a.opened);
      ready = ready;
      link = λ st.
          let (n, p) = a.pends st in
          record {
            matches = reservation-matches s e a.reserved n;
            result = pends_is (thread_at s (endpoint_at s e).waiting_sender).wait_result p;
          };
    }

takes :
    (s : System) (e : ℕ)
    → IsChannel (endpoint_at s e)
    → IsTakeable s e
    → Receives
        (channel s e)
        e
        (refill (with_kernel s (emptied s.kernel e)) e (endpoint_at s e).message)
unfolding IsLinked
takes s e c k =
    let f = endpoint_at s e in
    let g = record f { message = empty_message; message_ready = false } in
    let s' = with_kernel s (emptied s.kernel e) in
    let at : endpoint_at s' e ≡ g = put_at s.kernel e g in
    subst (λ (b : List IpcMessage). Receives b e (refill s' e f.message))
      (ap (λ (x : Endpoint). f.message ∷ messages x) at ∙ rw (k.ready) refl)
      (refill_lem s' e f.message (emptied-IsOpen s.kernel e k.op) (rw at refl) (c.stored k.ready) (
        rw at λ st.
          put_endpoint-IsWaiting s.kernel f.waiting_sender e f.waiting_sender_id g (k.link st)))

-- From a channel, a receive returns: it leaves the messages as they are, or it takes the first one out,
-- and a message that was staged moves into the mailbox. The endpoint is a channel again.
pub ipc_receive_locked_lem :
    (s : System) (e current : ℕ)
    → IsChannel (endpoint_at s e)
    → Receives (channel s e) e (ipc_receive_locked s e current)
unfolding ipc_receive_locked
ipc_receive_locked_lem s e current c =
    if_both (Receives (channel s e) e) (receive_refused s e current) (λ _. (refl, c))
      λ h.
        let k = accepted-IsTakeable s e current h in
        subst
          (λ (o : Kernel × Option IpcMessage). Receives (channel s e) e (elim o.1 [
            | none ↦ some (with_kernel s o.0, none)
            | some m ↦ refill (with_kernel s o.0) e m
          ]))
          (sym (receive_first s.kernel e k.op k.ready)) (takes s e c k)
