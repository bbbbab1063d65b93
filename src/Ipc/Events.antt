-- ===== src/Ipc/Events.antt =====
-- Closing endpoints and timing waits out, in kernel/ipc.c, keep the senders' messages staged as their
-- waits say.
use jcos.Prelude.{
  ℕ, zero, suc, ◌+◌, ◌≡◌, refl, sym, ◌∙◌, ap, inl, inr, Bool, true, false, not, ◌&&◌, Option, none,
  some, some_inj, List, [], ◌∷◌, nonzero, arith, Bool-cases, if_both, length,
}
use jcos.Kernel.{
  Endpoint, ThreadWaitKind, ThreadWaitResult, wait_none, ipc_receive, ipc_send, process_exit,
  pending, peer_closed, timed_out,
}
use jcos.Waits.{result_eq}
use jcos.Endpoints.{empty_message, endpoint_owned_next, endpoint_owned_first, endpoint_closed}
use jcos.System.{System, thread_at}
use jcos.Ipc.{and_then, endpoint_at, store_endpoint, unstage, ipc_make_ready, ipc_finish}
use jcos.Ipc.Close.{
  finish_closed, must_wake, drop_messages, close_refused, close_endpoint, ipc_endpoint_close,
  closed_then, close_owned, ipc_close_owned_endpoints,
}
use jcos.Ipc.Poll.{entry_valid, expire, poll_entry, poll_entries, ipc_timeout_poll, wake_or_halt}
use jcos.Timeouts.{IpcTimedWait, ipc_deadline_reached}
use jcos.Ipc.Committed.{IsCommitted, Keeps, Keeps-IsCommitted}
use jcos.Ipc.Effects.{
  ready-Keeps, finish_receive-IsCommitted, finish_send-IsCommitted, finish-Finished,
}
use jcos.Ipc.Steps.{Commits, CommitsAlone, alone_then, alone_alone}

-- A store that leaves an endpoint's sender and stage.
pub store-Keeps :
    (s : System) (e : ℕ) (f : Endpoint)
    → f.waiting_sender ≡ (endpoint_at s e).waiting_sender
    → f.waiting_sender_message_ready ≡ (endpoint_at s e).waiting_sender_message_ready
    → Keeps s.kernel (store_endpoint s e f).kernel
store-Keeps s e f a b = record {
  sender = λ x. ground arith;
  stage = λ x. ground arith;
  kind = λ x. refl;
  object = λ x. refl;
  result = λ x. refl;
}

after_ready :
    (s : System) (t : ℕ) → IsCommitted s.kernel → IsCommitted (ipc_make_ready s t).0.kernel
after_ready s t = Keeps-IsCommitted s.kernel (ipc_make_ready s t).0.kernel (ready-Keeps s t)

must_wake-Commits : (t : ℕ) (s : System) → IsCommitted s.kernel → CommitsAlone (must_wake t s)
unfolding must_wake
must_wake-Commits t s c =
    if_both CommitsAlone (not (nonzero t)) (λ _. c)
      λ _. if_both CommitsAlone (ipc_make_ready s t).1 (λ _. after_ready s t c) (λ _. tt)

finished_receive :
    (s : System) (t e id : ℕ) (r : ThreadWaitResult) (o : Option System)
    → ipc_finish s t e ipc_receive id r ≡ o
    → IsCommitted s.kernel
    → CommitsAlone o
finished_receive s t e id r none h c = tt
finished_receive s t e id r (some s') h c = finish_receive-IsCommitted s t e id r s' h c

close_receiver :
    (s : System) (t e id : ℕ)
    → IsCommitted s.kernel
    → CommitsAlone (finish_closed t e ipc_receive id s)
unfolding finish_closed
close_receiver s t e id c =
    if_both CommitsAlone (nonzero t && result_eq (thread_at s t).wait_result pending)
      (λ _.
        finished_receive s t e id peer_closed (ipc_finish s t e ipc_receive id peer_closed) refl c)
      (λ _. c)

-- The sender's part of a close, up to the dropped messages.
CommitsDropped : ℕ → Option System → Type 0
CommitsDropped e none = Unit {0}
CommitsDropped e (some s) = IsCommitted (drop_messages s e).kernel

finished_send :
    (s : System) (t e id : ℕ) (o : Option System)
    → ipc_finish s t e ipc_send id peer_closed ≡ o
    → IsCommitted s.kernel
    → CommitsDropped e o
unfolding CommitsDropped
finished_send s t e id none h c = tt
finished_send s t e id (some s') h c =
    finish_send-IsCommitted s t e id peer_closed s'
      (record (endpoint_at s' e) {
        waiting_sender_message = empty_message;
        waiting_sender_message_ready = false;
        message = empty_message;
        message_ready = false;
      })
      h refl refl c

close_sender :
    (s : System) (e id : ℕ)
    → IsCommitted s.kernel
    → CommitsDropped e (finish_closed (endpoint_at s e).waiting_sender e ipc_send id s)
unfolding finish_closed CommitsDropped
close_sender s e id c =
    let t = (endpoint_at s e).waiting_sender in
    if_both (CommitsDropped e) (nonzero t && result_eq (thread_at s t).wait_result pending)
      (λ _. finished_send s t e id (ipc_finish s t e ipc_send id peer_closed) refl c)
      (λ idle.
        Keeps-IsCommitted s.kernel (drop_messages s e).kernel
          (store-Keeps s e
            (record (endpoint_at s e) {
              waiting_sender_message = empty_message;
              waiting_sender_message_ready = false;
              message = empty_message;
              message_ready = false;
            })
            refl (sym (c.staged e ∙ idle)))
          c)

dropped_then :
    (e : ℕ) (o : Option System) (f : System → Option System)
    → CommitsDropped e o
    → ((s : System) → IsCommitted (drop_messages s e).kernel → CommitsAlone (f s))
    → CommitsAlone (and_then o f)
unfolding CommitsDropped
dropped_then e none f c g = tt
dropped_then e (some s) f c g = g s c

-- Finishing a receiver leaves the endpoints.
receiver_endpoints :
    (s : System) (t e id : ℕ) (s' : System)
    → finish_closed t e ipc_receive id s ≡ some s'
    → (endpoint_at s' e).waiting_sender ≡ (endpoint_at s e).waiting_sender
unfolding finish_closed
receiver_endpoints s t e id s' h =
    elim (Bool-cases (nonzero t && result_eq (thread_at s t).wait_result pending)) [
      | inl waits ↦
          let now = (finish-Finished s t e ipc_receive id peer_closed s' (rw waits at h)).now in
          ap (λ (x : System). (endpoint_at x e).waiting_sender) now
      | inr idle ↦
          let same : some s ≡ some s' = rw idle at h in
          ap (λ (x : System). (endpoint_at x e).waiting_sender) (sym (some_inj same))
    ]

close_endpoint-Commits :
    (s : System) (e : ℕ) → IsCommitted s.kernel → CommitsAlone (close_endpoint s e)
unfolding close_endpoint
close_endpoint-Commits s e c =
    let f = endpoint_at s e in
    let closed = store_endpoint s e (record f { closed = true }) in
    let c' =
      Keeps-IsCommitted s.kernel closed.kernel
        (store-Keeps s e (record f { closed = true }) refl refl) c in
    let sender : (endpoint_at closed e).waiting_sender ≡ f.waiting_sender = ground arith in
    alone_alone (finish_closed f.waiting_receiver e ipc_receive f.waiting_receiver_id closed) _
      (close_receiver closed f.waiting_receiver e f.waiting_receiver_id c')
      λ s₁ h₁ c₁.
        let same =
          receiver_endpoints closed f.waiting_receiver e f.waiting_receiver_id s₁ h₁ ∙ sender in
        dropped_then e (finish_closed f.waiting_sender e ipc_send f.waiting_sender_id s₁) _
          (rw (← same) (close_sender s₁ e f.waiting_sender_id c₁))
          λ s₂ c₂.
            alone_alone (must_wake f.waiting_receiver (drop_messages s₂ e))
              (must_wake f.waiting_sender)
              (must_wake-Commits f.waiting_receiver (drop_messages s₂ e) c₂)
              λ s₃ _ c₃. must_wake-Commits f.waiting_sender s₃ c₃

pub close-Commits : (s : System) (e : ℕ) → IsCommitted s.kernel → Commits (ipc_endpoint_close s e)
unfolding ipc_endpoint_close
close-Commits s e c =
    if_both Commits (close_refused s e) (λ _. c)
      λ _.
        alone_then (close_endpoint s e) (λ s'. some (s', true)) (close_endpoint-Commits s e c)
          (λ s' _ c'. c')

closed_then-Commits :
    (o : Option (System × Bool)) (f : System → Option (System × Bool))
    → Commits o
    → ((s : System) → IsCommitted s.kernel → Commits (f s))
    → Commits (closed_then o f)
closed_then-Commits none f c g = tt
closed_then-Commits (some (s, true)) f c g = g s c
closed_then-Commits (some (s, false)) f c g = c

close_owned-Commits :
    (fuel : ℕ) (s : System) (owner e : ℕ)
    → IsCommitted s.kernel
    → Commits (close_owned fuel s owner e)
unfolding close_owned
close_owned-Commits zero s owner e c = c
close_owned-Commits (suc fuel) s owner e c =
    let next = endpoint_owned_next s.kernel owner e in
    if_both Commits (not (nonzero e)) (λ _. c)
      λ _.
        if_both Commits (endpoint_closed s.kernel e) (λ _. close_owned-Commits fuel s owner next c)
          λ _.
            closed_then-Commits (ipc_endpoint_close s e) (λ s'. close_owned fuel s' owner next)
              (close-Commits s e c) (λ s' c'. close_owned-Commits fuel s' owner next c')

pub close_owned_endpoints-Commits :
    (s : System) (owner : ℕ) → IsCommitted s.kernel → Commits (ipc_close_owned_endpoints s owner)
unfolding ipc_close_owned_endpoints
close_owned_endpoints-Commits s owner c =
    if_both Commits (not (nonzero owner)) (λ _. c)
      (λ _.
        close_owned-Commits (length s.kernel.endpoint_storage + 1) s owner
          (endpoint_owned_first s.kernel owner) c)

-- A wait that is out of time.
expired_send :
    (s : System) (w : IpcTimedWait) (o : Option System)
    → ipc_finish s w.thread w.endpoint ipc_send w.wait_id timed_out ≡ o
    → IsCommitted s.kernel
    → CommitsAlone (and_then o (λ s'. some (unstage s' w.endpoint)))
expired_send s w none h c = tt
expired_send s w (some s') h c =
    finish_send-IsCommitted s w.thread w.endpoint w.wait_id timed_out s'
      (record (endpoint_at s' w.endpoint) {
        waiting_sender_message = empty_message;
        waiting_sender_message_ready = false;
      })
      h refl refl c

expire-Commits :
    (s : System) (w : IpcTimedWait) (kind : ThreadWaitKind)
    → IsCommitted s.kernel
    → CommitsAlone (expire s w kind)
unfolding expire
expire-Commits s w ipc_send c =
    if_both CommitsAlone (not (endpoint_at s w.endpoint).waiting_sender_message_ready) (λ _. tt)
      (λ _. expired_send s w (ipc_finish s w.thread w.endpoint ipc_send w.wait_id timed_out) refl c)
expire-Commits s w ipc_receive c =
    finished_receive s w.thread w.endpoint w.wait_id timed_out
      (ipc_finish s w.thread w.endpoint ipc_receive w.wait_id timed_out) refl c
expire-Commits s w wait_none c = tt
expire-Commits s w process_exit c = tt

poll_entry-Commits :
    (s : System) (now : ℕ) (w : IpcTimedWait)
    → IsCommitted s.kernel
    → CommitsAlone (poll_entry s now w)
unfolding poll_entry
poll_entry-Commits s now w c =
    if_both CommitsAlone (not w.occupied) (λ _. c)
      λ _.
        if_both CommitsAlone (not (entry_valid s w)) (λ _. tt)
          λ _.
            if_both CommitsAlone (not (result_eq (thread_at s w.thread).wait_result pending))
              (λ _. c)
              λ _.
                if_both CommitsAlone (not (ipc_deadline_reached now w.deadline)) (λ _. c)
                  λ _.
                    alone_alone (expire s w w.kind) (λ s'. wake_or_halt s' w.thread)
                      (expire-Commits s w w.kind c)
                      λ s' _ c'.
                        if_both CommitsAlone (ipc_make_ready s' w.thread).1
                          (λ _. after_ready s' w.thread c') (λ _. tt)

poll_entries-Commits :
    (ws : List IpcTimedWait) (s : System) (now : ℕ)
    → IsCommitted s.kernel
    → CommitsAlone (poll_entries ws s now)
unfolding poll_entries
poll_entries-Commits [] s now c = c
poll_entries-Commits (w ∷ ws) s now c =
    alone_alone (poll_entry s now w) (λ s'. poll_entries ws s' now) (poll_entry-Commits s now w c)
      (λ s' _ c'. poll_entries-Commits ws s' now c')

pub poll-Commits :
    (s : System) (now : ℕ) → IsCommitted s.kernel → CommitsAlone (ipc_timeout_poll s now)
unfolding ipc_timeout_poll
poll-Commits s now c = poll_entries-Commits s.timed_waits s now c
