-- ===== src/Ipc/Waiting.antt =====
-- Waits of kernel/ipc.c that begin and end keep the senders' messages staged as the waits say.
use jcos.Prelude.{
  ℕ, ◌≡◌, ◌≢◌, refl, sym, Bool, true, false, not, ◌||◌, Option, none, some, arith, if_both, add64,
  subst,
}
use jcos.Kernel.{
  Kernel, IpcMessage, ThreadWaitKind, wait_none, ipc_receive, ipc_send, process_exit, pending,
  update,
}
use jcos.Waits.{wait_clear, put_thread, thread_wait_begin, thread_wait_matches_id, thread_wait_end}
use jcos.Endpoints.{empty_message}
use jcos.System.{System, thread_at}
use jcos.Ipc.{and_then, endpoint_at, store_endpoint, with_kernel, ipc_reservation_valid}
use jcos.Ipc.Close.{clear_waiter}
use jcos.Ipc.Blocking.{must_unregister, ipc_end_reservation}
use jcos.Ipc.Committed.{
  IsCommitted, Keeps-IsCommitted, IsStagedBut, begin_send-IsCommitted, other_wait-IsCommitted,
  end_send-IsCommitted,
}
use jcos.Ipc.Events.{store-Keeps}
use jcos.Ipc.Steps.{CommitsAlone}

-- A wait that ends.
pub record Ended (k : Kernel) (t e : ℕ) (kind : ThreadWaitKind) (k' : Kernel) : Type 0 where
  pub kind_was : (k.threads t).wait_kind ≡ kind
  pub object_was : (k.threads t).wait_object ≡ e
  pub now : k' ≡ put_thread k t (wait_clear (k.threads t))

end-Ended :
    (k : Kernel) (t e : ℕ) (kind : ThreadWaitKind)
    → (thread_wait_end k t kind e).1 ≡ true
    → Ended k t e kind (thread_wait_end k t kind e).0
unfolding thread_wait_end
end-Ended k t e kind h = record {
  kind_was = ground arith;
  object_was = ground arith;
  now = ground arith;
}

-- The end of a send, with the endpoint's link.
pub ended_send-Commits :
    (s : System) (t e : ℕ) (k' : Kernel)
    → Ended s.kernel t e ipc_send k'
    → IsStagedBut s.kernel e
    → IsCommitted (clear_waiter (with_kernel s k') e ipc_send).kernel
ended_send-Commits s t e k' d c = rw d.now (
    end_send-IsCommitted s.kernel t e (wait_clear (thread_at s t))
      (record (endpoint_at s e) {
        waiting_sender = 0;
        waiting_sender_id = 0;
        waiting_sender_message = empty_message;
        waiting_sender_message_ready = false;
      })
      d.kind_was d.object_was refl refl refl c)

pub ended_receive-Commits :
    (s : System) (t e : ℕ) (k' : Kernel)
    → Ended s.kernel t e ipc_receive k'
    → IsCommitted s.kernel
    → IsCommitted (clear_waiter (with_kernel s k') e ipc_receive).kernel
ended_receive-Commits s t e k' d c =
    let was = d.kind_was in
    let ended = with_kernel s (put_thread s.kernel t (wait_clear (thread_at s t))) in
    let f = record (endpoint_at s e) { waiting_receiver = 0; waiting_receiver_id = 0 } in
    rw d.now (
      Keeps-IsCommitted ended.kernel (store_endpoint ended e f).kernel
        (store-Keeps ended e f refl refl)
        (other_wait-IsCommitted s.kernel t (wait_clear (thread_at s t)) (λ x. cc) (λ x. cc) c))

abbrev ipc_kind : ThreadWaitKind → Bool
ipc_kind ipc_receive = true
ipc_kind ipc_send = true
ipc_kind _ = false

-- What ending a wait needs of a state, by the kind.
IsEndable : ThreadWaitKind → Kernel → ℕ → Type 0
IsEndable ipc_send k e = IsStagedBut k e
IsEndable kind k e = IsCommitted k

end_wait-Commits :
    (s : System) (t e : ℕ) (kind : ThreadWaitKind)
    → ipc_kind kind ≡ true
    → (thread_wait_end s.kernel t kind e).1 ≡ true
    → IsEndable kind s.kernel e
    → IsCommitted (clear_waiter (with_kernel s (thread_wait_end s.kernel t kind e).0) e kind).kernel
unfolding IsEndable
end_wait-Commits s t e ipc_receive ipc h c =
    ended_receive-Commits s t e (thread_wait_end s.kernel t ipc_receive e).0
      (end-Ended s.kernel t e ipc_receive h) c
end_wait-Commits s t e ipc_send ipc h c =
    ended_send-Commits s t e (thread_wait_end s.kernel t ipc_send e).0
      (end-Ended s.kernel t e ipc_send h) c
end_wait-Commits s t e wait_none ipc h c = absurd (ground arith)
end_wait-Commits s t e process_exit ipc h c = absurd (ground arith)

unregister-kernel :
    (s : System) (t e : ℕ) (kind : ThreadWaitKind) (id : ℕ) (timed : Bool) (s' : System)
    → must_unregister s t e kind id timed ≡ some s'
    → s'.kernel ≡ s.kernel
unregister-kernel s t e kind id timed s' h = ground arith

then_alone :
    (o : Option System) (f : System → Option System)
    → ((s : System) → o ≡ some s → CommitsAlone (f s))
    → CommitsAlone (and_then o f)
then_alone none f g = tt
then_alone (some s) f g = g s refl

end_any-Commits :
    (s : System) (t e : ℕ) (kind : ThreadWaitKind) (id : ℕ) (timed : Bool)
    → ipc_kind kind ≡ true
    → IsEndable kind s.kernel e
    → CommitsAlone (ipc_end_reservation s t e kind id timed)
unfolding ipc_end_reservation
end_any-Commits s t e kind id timed ipc c =
    if_both CommitsAlone
      (not (thread_wait_matches_id s.kernel t kind e id) || not (ipc_reservation_valid s e kind))
      (λ _. tt)
      λ _. then_alone (must_unregister s t e kind id timed) _ λ s₁ h.
        if_both CommitsAlone (not (thread_wait_end s₁.kernel t kind e).1) (λ _. tt)
          λ ended.
            end_wait-Commits s₁ t e kind ipc (ground arith)
              (subst (λ k. IsEndable kind k e) (sym (unregister-kernel s t e kind id timed s₁ h)) c)

-- The end of a receive, and of a send whose message may still be staged.
pub end_receiving-Commits :
    (s : System) (t e id : ℕ) (timed : Bool)
    → IsCommitted s.kernel
    → CommitsAlone (ipc_end_reservation s t e ipc_receive id timed)
unfolding IsEndable
end_receiving-Commits s t e id timed c = end_any-Commits s t e ipc_receive id timed refl c

pub end_sending-Commits :
    (s : System) (t e id : ℕ) (timed : Bool)
    → IsStagedBut s.kernel e
    → CommitsAlone (ipc_end_reservation s t e ipc_send id timed)
unfolding IsEndable
end_sending-Commits s t e id timed c = end_any-Commits s t e ipc_send id timed refl c

-- A wait begins: the thread had none.
begin_idle :
    (k : Kernel) (t e : ℕ) (kind : ThreadWaitKind)
    → (thread_wait_begin k t kind e).1 ≡ true
    → ((k.threads t).wait_kind ≡ wait_none)
      × (t ≡ k.current_thread)
      × ((thread_wait_begin k t kind e).0
          ≡ record (put_thread k t (record (k.threads t) {
            wait_kind = kind;
            wait_result = pending;
            wait_object = e;
            wait_id = k.next_wait_id;
          })) { next_wait_id = add64 k.next_wait_id 1 })
unfolding thread_wait_begin
begin_idle k t e kind h = ground arith

-- Whatever token comes next.
next_token : (k : Kernel) (id : ℕ) → IsCommitted k → IsCommitted (record k { next_wait_id = id })
next_token k id c = record { waits = c.waits; linked = c.linked; staged = c.staged }

pub begin_receive-Commits :
    (k : Kernel) (t e : ℕ)
    → (thread_wait_begin k t ipc_receive e).1 ≡ true
    → IsCommitted k
    → IsCommitted (thread_wait_begin k t ipc_receive e).0
begin_receive-Commits k t e h c =
    let (idle, _, now) = begin_idle k t e ipc_receive h in
    let b = record (k.threads t) {
      wait_kind = ipc_receive;
      wait_result = pending;
      wait_object = e;
      wait_id = k.next_wait_id;
    } in
    rw now (
      next_token (put_thread k t b) (add64 k.next_wait_id 1)
        (other_wait-IsCommitted k t b (λ x. cc) (λ x. cc) c))

-- A send that begins, with its link and its staged message.
pub begin_send-Commits :
    (s : System) (t e id : ℕ) (m : IpcMessage)
    → (thread_wait_begin s.kernel t ipc_send e).1 ≡ true
    → (endpoint_at s e).waiting_sender ≡ 0
    → t ≢ 0
    → IsCommitted s.kernel
    → IsCommitted
        (store_endpoint
          (with_kernel s (thread_wait_begin s.kernel t ipc_send e).0)
          e
          (record (endpoint_at (with_kernel s (thread_wait_begin s.kernel t ipc_send e).0) e) {
            waiting_sender = t;
            waiting_sender_id = id;
            waiting_sender_message = m;
            waiting_sender_message_ready = true;
          })).kernel
begin_send-Commits s t e id m h vacant n c =
    let k = s.kernel in
    let (idle, _, now) = begin_idle k t e ipc_send h in
    let b = record (k.threads t) {
      wait_kind = ipc_send;
      wait_result = pending;
      wait_object = e;
      wait_id = k.next_wait_id;
    } in
    let f = record (k.endpoints e) {
      waiting_sender = t;
      waiting_sender_id = id;
      waiting_sender_message = m;
      waiting_sender_message_ready = true;
    } in
    rw now (
      next_token (record k { threads = update k.threads t b; endpoints = update k.endpoints e f })
        (add64 k.next_wait_id 1)
        (begin_send-IsCommitted k t e b f idle vacant n refl refl refl refl refl c))
