-- ===== src/Timeouts/Table.antt =====
-- Registering and unregistering a timed wait of kernel/ipc.c.
use jcos.Prelude.{
  ℕ, zero, suc, ◌+◌, ◌<◌, ◌≡◌, refl, sym, ◌⊎◌, inl, inr, Bool, true, false, not, ◌&&◌, ◌||◌, some,
  List, [], ◌∷◌, arith, Bool-cases, Option-cases, some_inj, ltb, ◌==◌, if◌then◌else◌, nonzero, set,
  get_or, length, length-set,
}
use jcos.Kernel.{Kernel, ThreadWaitKind, wait_none, ipc_receive, ipc_send, process_exit}
use jcos.Waits.{kind_eq, thread_wait_matches_id}
use jcos.Timeouts.{
  IpcTimedWait, Timer, empty_wait, duplicates, find_empty, timed_wait, ipc_timeout_register,
  registers, ipc_timeout_unregister, active_count, timeout_max_ticks,
}

-- Every entry that is not occupied is cleared.
abbrev pub AreCleared : List IpcTimedWait → Type 0
AreCleared ws =
    (i : ℕ) → (get_or ws i empty_wait).occupied ≡ false → get_or ws i empty_wait ≡ empty_wait

kind_eq_refl : (kind : ThreadWaitKind) → kind_eq kind kind ≡ true
kind_eq_refl wait_none = refl
kind_eq_refl ipc_receive = refl
kind_eq_refl ipc_send = refl
kind_eq_refl process_exit = refl

-- An entry of the table repeats the registration.
abbrev repeats : List IpcTimedWait → (thread endpoint : ℕ) → ThreadWaitKind → ℕ → Bool
repeats [] thread endpoint kind id = false
repeats (w ∷ ws) thread endpoint kind id =
    (w.occupied && duplicates w thread endpoint kind id) || repeats ws thread endpoint kind id

find_empty_new :
    (ws : List IpcTimedWait) (capacity i empty thread endpoint : ℕ) (kind : ThreadWaitKind)
    (id found : ℕ)
    → find_empty ws capacity i empty thread endpoint kind id ≡ some found
    → repeats ws thread endpoint kind id ≡ false
unfolding find_empty
find_empty_new [] capacity i empty thread endpoint kind id found e = refl
find_empty_new (w ∷ ws) capacity i empty thread endpoint kind id found e =
    let first = if not w.occupied && (empty == capacity) then i else empty in
    elim (Bool-cases (w.occupied && duplicates w thread endpoint kind id)) [
      | inl repeated ↦ absurd (ground arith)
      | inr new ↦
          rw new
            (find_empty_new ws capacity (i + 1) first thread endpoint kind id found (rw new at e))
    ]

-- What the loop found: the entry it knew before, or a later one that is not occupied.
abbrev IsFound : List IpcTimedWait → (i empty found : ℕ) → Type 0
IsFound ws i empty found =
    (found ≡ empty)
    ⊎ ((j : ℕ) × (found ≡ i + j) × (j < length ws) × ((get_or ws j empty_wait).occupied ≡ false))

find_empty_free :
    (ws : List IpcTimedWait) (capacity i empty thread endpoint : ℕ) (kind : ThreadWaitKind)
    (id found : ℕ)
    → find_empty ws capacity i empty thread endpoint kind id ≡ some found
    → IsFound ws i empty found
unfolding find_empty
find_empty_free [] capacity i empty thread endpoint kind id found e = inl (sym (some_inj e))
find_empty_free (w ∷ ws) capacity i empty thread endpoint kind id found e =
    let first = if not w.occupied && (empty == capacity) then i else empty in
    let rest : find_empty ws capacity (i + 1) first thread endpoint kind id ≡ some found =
      ground arith in
    elim (find_empty_free ws capacity (i + 1) first thread endpoint kind id found rest) [
      | inl same ↦ elim (Bool-cases (not w.occupied && (empty == capacity))) [
        | inl here ↦ inr (zero, ground arith, omega arith, ground arith)
        | inr known ↦ inl (ground arith)
      ]
      | inr (j, at, inside, free) ↦ inr (suc j, omega arith, omega arith, free)
    ]

unregister-set :
    (ws : List IpcTimedWait) (i : ℕ) (w : IpcTimedWait)
    → i < length ws
    → (get_or ws i empty_wait).occupied ≡ false
    → AreCleared ws
    → w.occupied ≡ true
    → repeats ws w.thread w.endpoint w.kind w.wait_id ≡ false
    → ipc_timeout_unregister (set ws i w) w.thread w.endpoint w.kind w.wait_id ≡ (ws, true)
unfolding ipc_timeout_unregister
unregister-set [] i w inside free cleared o new = absurd (omega arith)
unregister-set (x ∷ ws) zero w inside free cleared o new =
    let here : registers w w.thread w.endpoint w.kind w.wait_id ≡ true =
      rw (o, kind_eq_refl w.kind) (ground arith) in
    rw (here, cleared 0 free) refl
unregister-set (x ∷ ws) (suc i) w inside free cleared o new =
    let elsewhere : registers x w.thread w.endpoint w.kind w.wait_id ≡ false = ground arith in
    let rest = unregister-set ws i w (omega arith) free (λ j. cleared (suc j)) o (ground arith) in
    rw (elsewhere, rest) refl

-- What an accepted registration did: it wrote an entry that was not occupied, and repeats none.
abbrev IsWritten : List IpcTimedWait → IpcTimedWait → List IpcTimedWait → Type 0
IsWritten waits w after =
    (j : ℕ) × (j < length waits)
    × ((get_or waits j empty_wait).occupied ≡ false)
    × (repeats waits w.thread w.endpoint w.kind w.wait_id ≡ false)
    × (after ≡ set waits j w)

register_cases :
    (k : Kernel) (timer : Timer) (waits : List IpcTimedWait) (thread endpoint : ℕ)
    (kind : ThreadWaitKind) (id ticks : ℕ)
    → (ipc_timeout_register k timer waits thread endpoint kind id ticks ≡ (waits, false))
      ⊎ (((ipc_timeout_register k timer waits thread endpoint kind id ticks).1 ≡ true)
          × IsWritten waits
              (timed_wait k timer thread endpoint kind id ticks)
              (ipc_timeout_register k timer waits thread endpoint kind id ticks).0)
unfolding ipc_timeout_register
register_cases k timer waits thread endpoint kind id ticks =
    let refused =
      not timer.initialized
      || not (nonzero ticks)
      || ltb timeout_max_ticks ticks
      || not (thread_wait_matches_id k thread kind endpoint id) in
    let n = length waits in
    elim (Bool-cases refused) [
      | inl refuses ↦ inl (rw refuses refl)
      | inr accepts ↦ elim (Option-cases (find_empty waits n 0 n thread endpoint kind id)) [
        | inl repeated ↦ inl (rw (accepts, repeated) refl)
        | inr (found, e) ↦ elim (Bool-cases (found == n)) [
          | inl full ↦ inl (rw (accepts, e, full) refl)
          | inr room ↦ elim (find_empty_free waits n 0 n thread endpoint kind id found e) [
            | inl full ↦ absurd (ground arith)
            | inr (j, at, inside, free) ↦
                let here : found ≡ j = omega arith in
                let new = find_empty_new waits n 0 n thread endpoint kind id found e in
                inr (
                  rw (accepts, e, room) refl,
                  (j, inside, free, new, rw (accepts, e, room, here) refl),
                )
          ]
        ]
      ]
    ]

-- Unregistering undoes registering: once a timed wait is registered in a table whose unoccupied entries
-- are cleared, unregistering it finds it and leaves the table as it was before.
pub unregister-register :
    (k : Kernel) (timer : Timer) (waits : List IpcTimedWait) (thread endpoint : ℕ)
    (kind : ThreadWaitKind) (id ticks : ℕ)
    → AreCleared waits
    → (ipc_timeout_register k timer waits thread endpoint kind id ticks).1 ≡ true
    → ipc_timeout_unregister
        (ipc_timeout_register k timer waits thread endpoint kind id ticks).0
        thread
        endpoint
        kind
        id
      ≡ (waits, true)
unregister-register k timer waits thread endpoint kind id ticks cleared done =
    let w = timed_wait k timer thread endpoint kind id ticks in
    elim (register_cases k timer waits thread endpoint kind id ticks) [
      | inl refused ↦ absurd (ground arith)
      | inr (accepted, (j, inside, free, new, written)) ↦
          rw written (unregister-set waits j w inside free cleared refl new)
    ]

active_count-set :
    (ws : List IpcTimedWait) (i : ℕ) (w : IpcTimedWait)
    → i < length ws
    → (get_or ws i empty_wait).occupied ≡ false
    → w.occupied ≡ true
    → active_count (set ws i w) ≡ active_count ws + 1
unfolding active_count
active_count-set [] i w inside free o = absurd (omega arith)
active_count-set (x ∷ ws) zero w inside free o = ground arith
active_count-set (x ∷ ws) (suc i) w inside free o =
    let rest = active_count-set ws i w (omega arith) free o in ground arith

-- A registration that is refused leaves the table as it is; one that is accepted keeps its size and
-- makes one more entry active.
pub ipc_timeout_register_lem :
    (k : Kernel) (timer : Timer) (waits : List IpcTimedWait) (thread endpoint : ℕ)
    (kind : ThreadWaitKind) (id ticks : ℕ)
    → (ipc_timeout_register k timer waits thread endpoint kind id ticks ≡ (waits, false))
      ⊎ (((ipc_timeout_register k timer waits thread endpoint kind id ticks).1 ≡ true)
          × (length (ipc_timeout_register k timer waits thread endpoint kind id ticks).0
              ≡ length waits)
          × (active_count (ipc_timeout_register k timer waits thread endpoint kind id ticks).0
              ≡ active_count waits + 1))
ipc_timeout_register_lem k timer waits thread endpoint kind id ticks =
    let w = timed_wait k timer thread endpoint kind id ticks in
    elim (register_cases k timer waits thread endpoint kind id ticks) [
      | inl refused ↦ inl refused
      | inr (accepted, (j, inside, free, new, written)) ↦ inr (
        accepted,
        rw written (length-set waits j w),
        rw written (active_count-set waits j w inside free refl),
      )
    ]
