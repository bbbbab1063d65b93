-- ===== src/Lib.antt =====
-- JCOS: verification of the kernel's objects, memory, scheduling, message passing and block devices, and
-- of the keyboards and the shell's line editor.
--
-- The kernel runs on one processor, and every modelled kernel entry holds local IRQ exclusion, its own
-- or its caller's, from its first test to its last store, so an entry is one step on explicit state.
-- A model returns the new state with the C function's result. A result of `none`, or `false` with the
-- state as it was, is a refusal.
--
-- Prelude: numbers, arrays and words. A machine word is a native number with its wrap-around written
--   out; a pointer is its address, and zero is the null pointer.
-- Pmm (kernel/pmm.c, kernel/pmm.h): the bitmap allocator. The record Pmm holds the file's statics, one
--   field each; `bytes` is the memory that g_bitmap points to. frame_alloc, frame_free_range,
--   frame_free and pmm_alloc_pages are the functions of those names, and Pmm.Init is pmm_init. A scan
--   is recursion on the rounds left, which start at g_bitmap_bits, as the C loop's do. The pass over
--   the memory map is on fuel: the size of the map, which is enough, since each step adds a descriptor
--   size of at least 40 bytes.
-- Physmap (kernel/physmap.c): the direct map that the allocator moves its bitmap to.
-- ObjectStorage (kernel/object_storage.h): the registries of live addresses, a list of fixed length.
-- Kernel (kernel/thread.h, kernel/address_space.h, kernel/endpoint.h, kernel/device_resource.h,
--   kernel/capability.h): the objects that the kernel's tables name, one memory and one registry for
--   each type, and the issuers of identities. Structures keep the fields that the modelled files read.
-- Capability (kernel/capability.c): tables and handles. The pointer that object_refs returns is the
--   pair of refs_of and set_refs, and object_identity is the rest of that function.
--   Capability.Calls makes histories of the entries that change state.
-- Endpoints (kernel/endpoint.c), DeviceResources (kernel/device_resource.c): the objects' lifetimes
--   and the endpoints' mailbox. Their destruction reads the counts that Capability keeps.
-- Waits (kernel/thread.c, the functions thread_wait_*): wait registrations and their tokens.
--   Waits.Moves makes histories of them, between which the scheduler may change any thread's state,
--   its place on the run queue and the current thread.
-- System (kernel/process.h, kernel/process.c, kernel/interrupts.h): the processes, the scheduler's
--   statics and the registers, beside the kernel's objects.
--   thread_current is read as g_current_thread, which is null until thread_system_init has run.
-- Activation (kernel/thread.c): the switches that make another thread current.
-- Scheduler (kernel/scheduler.c): the run queue, a ring of threads linked through memory. The loops run
--   on the rounds left, which start at g_run_count as the C loops' do. Scheduler.Traps has the
--   interrupt side; cpu_halt_forever is the result `none`. Scheduler.Queue says what list of threads
--   the ring stands for, and Scheduler.Run makes histories of the calls. The exit trap is not modelled.
-- Ipc (kernel/ipc.c): sends and receives on endpoints. `none` is a call that halts the processor. A
--   blocking call is an Outcome: it returns, or it parks in scheduler_wait_current; receive_resumes and
--   send_resumes are the rest of the call, from that function's result on. Ipc.Close has the close and
--   the abort, Ipc.Blocking the calls that wait, Ipc.Poll the timer's poll. Ipc.Run makes histories of
--   all of them, between which other code may change any thread but not its wait. Ipc.Channel sees an
--   endpoint as a channel of at most two messages, for Ipc.Taking and Ipc.Putting. The test hooks of
--   that file (ipc_wait_test_*) are taken as not armed. The walk over a process's endpoints is on fuel:
--   one more than the registry's length, which is enough, since endpoint_owned_next only goes forward.
-- Timeouts (kernel/ipc.c, the functions ipc_timeout_* and ipc_deadline_reached): the table of timed
--   waits. What kernel/timer.c answers is the record Timer.
-- Block (kernel/block.c, kernel/partition.c): block devices and partitions. A device is its index in
--   g_devices. Block.Requests has the reads and writes: a result is the call that reaches a driver's
--   function, or `none` where false is returned before. They run on fuel for the devices that they go
--   through: one more than the device's index is enough, since a parent is registered first. Buffers
--   are not modelled.
-- Editor (kernel/shell/editor.c): the line editor. Editor.Line has the state and what does not draw,
--   Editor.Terminal the drawing and the moves, Editor.Keys the commands and shell_editor_handle. The
--   terminal (kernel/terminal.h) is any state with the operations that the editor calls. k_strlen and
--   k_streq run on fuel, the capacity of a line, since every line ends within its array.
-- KeyEvents (kernel/key_event.h): the key events that the keyboards make and the editor reads.
-- Ps2 (kernel/ps2.c): scancodes into key events, and the ring of events. A drain reads what the ports
--   answer, a list of pairs of a status and a data byte.
-- Serial (kernel/input.c): the parser of the serial line's bytes and escape sequences.
-- Sample: a kernel just booted, for the tests.
--
-- Not modelled: page tables (kernel/vmm.c), the lifetimes of processes and programs, the services,
-- drivers, file systems, the other shell commands, the loader and the user programs.
-- Null out-pointers are not passed: the models return the value that the code stores there.
pub mod Activation
pub mod Block
pub mod Capability
pub mod DeviceResources
pub mod Editor
pub mod Endpoints
pub mod Ipc
pub mod Kernel
pub mod KeyEvents
pub mod ObjectStorage
pub mod Physmap
pub mod Pmm
pub mod Prelude
pub mod Ps2
pub mod Sample
pub mod Scheduler
pub mod Serial
pub mod System
pub mod Timeouts
pub mod Waits
