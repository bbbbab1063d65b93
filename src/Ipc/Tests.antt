-- ===== src/Ipc/Tests.antt =====
-- An endpoint of kernel/ipc.c with a message, and a sender that waits for room: thread 0x7100 at 0x5000.
use jcos.Prelude.{
  ℕ, ◌≡◌, refl, Bool, true, false, Option, none, some, List, [], ◌∷◌, arith, ◌==◌, if◌then◌else◌,
}
use jcos.Kernel.{
  Thread, Endpoint, IpcMessage, ThreadWaitResult, ipc_send, pending, peer_closed, ready,
  result_none,
}
use jcos.System.{System, thread_at}
use jcos.Sample.{booted_system, no_thread, an_endpoint}
use jcos.ObjectStorage.{storage_live}
use jcos.Waits.{thread_wait_matches_id, thread_wait_try_complete}
use jcos.Ipc.{
  ipc_reservation_valid, ipc_message_valid, ipc_receive_locked, ipc_send_locked, endpoint_at,
}
use jcos.Ipc.Blocking.{ipc_receive_blocking_common}
use jcos.Ipc.Poll.{ipc_timeout_poll}
use jcos.Endpoints.{copy_words, endpoint_message_ready, endpoint_try_receive, endpoint_try_send}
use jcos.Ipc.Channel.{channel, IsChannel, Receives, Sends}
use jcos.Ipc.Taking.{ipc_receive_locked_lem}
use jcos.Ipc.Putting.{ipc_send_locked_lem}
use jcos.Ipc.Committed.{IsCommitted}
use jcos.Ipc.Steps.{CommitsAlone}
use jcos.Ipc.Close.{ipc_endpoint_close}
use jcos.Ipc.Run.{IpcCall, polls, closes, aborts, switches, receives, ipc_run, ipc_run-IsCommitted}

abbrev hello : IpcMessage
hello = record { words = 104 ∷ 101 ∷ 0 ∷ 0 ∷ []; word_count = 2 }

abbrev again : IpcMessage
again = record { words = 97 ∷ 0 ∷ 0 ∷ 0 ∷ []; word_count = 1 }

abbrev sender : ℕ → Thread
sender a =
    if a == 0x7100
    then record no_thread {
      id = 3;
      process = 0x8000;
      state = ready;
      interrupt_rsp = 0x72000;
      interrupt_context_ready = true;
      wait_kind = ipc_send;
      wait_result = pending;
      wait_object = 0x5000;
      wait_id = 9;
      run_next = 0x7000;
      on_run_queue = true;
    }
    else no_thread

abbrev full : ℕ → Endpoint
full e =
    if e == 0x5000
    then record an_endpoint {
      message = hello;
      message_ready = true;
      waiting_sender = 0x7100;
      waiting_sender_id = 9;
      waiting_sender_message = again;
      waiting_sender_message_ready = true;
    }
    else an_endpoint

abbrev full_system : System
full_system = record booted_system {
  kernel = record booted_system.kernel {
    threads = sender;
    thread_storage = 0x7000 ∷ 0x7100 ∷ [];
    current_thread = 0x7000;
    endpoints = full;
  };
}

full-IsCommitted : IsCommitted full_system.kernel
full-IsCommitted = record {
  waits = λ e n. ground arith;
  linked = λ t h. ground arith;
  staged = λ e. ground arith;
}

abbrev result_after : Option (System × Bool) → ThreadWaitResult
result_after none = result_none
result_after (some (s, closed)) = (thread_at s 0x7100).wait_result

-- A close tells the sender.
close_tells : result_after (ipc_endpoint_close full_system 0x5000) ≡ peer_closed
unfolding ipc_endpoint_close storage_live ipc_reservation_valid thread_wait_matches_id
    thread_wait_try_complete
close_tells = refl

abbrev calls : List IpcCall
calls =
    polls 40
    ∷ receives 0x8000 1 false 0
    ∷ switches 0x7100
    ∷ closes 0x5000
    ∷ switches 0x7000
    ∷ aborts 0x7100
    ∷ []

ipc_run_example : CommitsAlone (ipc_run full_system calls)
ipc_run_example = ipc_run-IsCommitted full_system calls full-IsCommitted

abbrev returned : Option System → Bool
returned none = false
returned (some s) = true

-- The calls return.
calls_return : returned (ipc_run full_system calls) ≡ true
unfolding ipc_run ipc_timeout_poll ipc_receive_blocking_common ipc_endpoint_close storage_live
    ipc_reservation_valid thread_wait_matches_id thread_wait_try_complete
calls_return = refl

full-IsChannel : IsChannel (endpoint_at full_system 0x5000)
unfolding copy_words ipc_message_valid
full-IsChannel = record { stored = λ _. (refl, refl); full = λ _. refl }

-- The first message comes out.
takes_first : channel full_system 0x5000 ≡ hello ∷ again ∷ []
unfolding copy_words
takes_first = refl

ipc_receive_locked_example :
    Receives (channel full_system 0x5000) 0x5000 (ipc_receive_locked full_system 0x5000 0x7000)
ipc_receive_locked_example = ipc_receive_locked_lem full_system 0x5000 0x7000 full-IsChannel

abbrev handed_out : Option (System × Option IpcMessage) → Option IpcMessage
handed_out none = none
handed_out (some (s, m)) = m

hands_out : handed_out (ipc_receive_locked full_system 0x5000 0x7000) ≡ some hello
unfolding ipc_receive_locked storage_live ipc_reservation_valid thread_wait_matches_id
    endpoint_message_ready endpoint_try_receive endpoint_try_send thread_wait_try_complete
hands_out = refl

empty-IsChannel : IsChannel (endpoint_at full_system 0x5100)
empty-IsChannel = record { stored = λ r. absurd (ground arith); full = λ st. absurd (ground arith) }

ipc_send_locked_example :
    Sends (channel full_system 0x5100) 0x5100 hello (ipc_send_locked full_system 0x5100 hello)
ipc_send_locked_example = ipc_send_locked_lem full_system 0x5100 hello empty-IsChannel

abbrev accepted : Option (System × Bool) → Bool
accepted none = false
accepted (some (s, sent)) = sent

accepts : accepted (ipc_send_locked full_system 0x5100 hello) ≡ true
unfolding ipc_send_locked storage_live endpoint_message_ready ipc_reservation_valid
    endpoint_try_send
accepts = refl
