-- ===== src/Lib.antt =====
-- libmsh, the runtime of memory-stall harvesting: the C code of libmsh/, and the sample programs of
-- apps/.
--
-- A primary thread hosts scavengers, coroutines of shared objects that use its memory stalls.
-- Instrumented binaries switch between the coroutines of a thread along the links in its yield
-- contexts; the runtime decides which scavengers a thread hosts and keeps the links.
--
-- Memory models libmsh/msh.h and the static data of libmsh/msh.c: `struct yield_ctx`,
-- `struct coroutine_ctx` and `struct primary_thread_ctx` are the records YieldCtx, CoroutineCtx and
-- PrimaryCtx, and World holds PRIM_TABLE, SCAV_TABLE and the other variables. An operation takes the
-- World and gives the next one. Outcome (Prelude.Outcomes) says how it ends: `ok`, `exit` for an
-- `err_check` that ends the process, and `fault` for a failed assertion or a null or wild access.
-- The operations of thread t take t as an argument, which stands for msh_tid and gsbase.
--
-- IdxList models push_back_to_list, pop_back_from_list, tl_find_unfinished_crt and need_more_scav.
-- NextMap models set_special_next, tl_next_available_crt and tl_update_next_map.
-- Symbols models set_scav_symbol and the writes to crt_pos elsewhere.
-- Pack models tl_swap_crts and tl_pack_crts, Finish tl_finish_crt, Realloc realloc_scav.
-- Allocate models _allocate_scav, call_init_for_new_scav and allocate_scav.
-- Stack models the stack in an entry of SCAV_TABLE and the alignment in ret_to_scheduler.
-- Schedule models tl_sched_next_crt up to the jump, which is a value of the type Switch.
-- Cleanup models msh_cleanup, with setjmp and longjmp as values of the type Control, and the return
-- of a coroutine into ret_to_scheduler; a scavenger returns its crt_pos, as that of
-- apps/src/scavengers/compute.cpp does.
-- Init models msh_init with init_prim_table, init_scav_table, init_scav_table_entry and parse_command;
-- a path that does not fit scav_pool_path is a fault.
-- Thread models msh_alloc_ctx, init_primary_ctx, msh_enter_blockable_call and msh_exit_blockable_call;
-- the loop of the last is modelled by its round.
-- Wrappers models libmsh/pthread.c: pthread_create, msh_start_routine, the wrappers of pthread_mutex_lock, pthread_cond_wait, pthread_cond_timedwait and pthread_barrier_wait, and
-- pthread_join; what the thread's routine does is an argument.
-- Wrappers.First and Wrappers.Lifetime put them together, from the start of a thread to its end.
-- Runtime is the whole process: a step relation in which any number of threads make these calls, each
-- in the order in which libmsh/pthread.c makes it call, and get any values from their coroutines.
-- Runtime.Ending follows the jumps of one thread from any such state through its cleanup.
-- Realloc, Pack, Allocate, Schedule, Cleanup and Thread each have a module Kept, which states what a
-- relation between worlds has to satisfy to be kept by the component, and modules for such relations:
-- Frame for the context of another thread, Plain for the links of the scavengers, Primary for the link
-- of the primary, and Idle for the flags and the loaded objects while no thread is blocked.
-- Apps.Ptrchase models apps/src/primary/ptrchase.cpp, and Apps.Compute the scavenger
-- apps/src/scavengers/compute.cpp; Apps.Stamp has the time stamps of both. Apps.Template models
-- apps/src/primary/template.cpp, a whole program on the wrappers.
-- Spinlock models libmsh/spinlock.h as a step relation of any number of threads, and Handshake the flag
-- reallocatable by which a blocked thread and a thread that takes from it exclude each other.
-- Hosting states the invariant of the two tables, IsHosting, and the ways in which they change.
-- Tests has the theorems at concrete processes.
--
-- A scavenger that returns enters Schedule, which calls Finish, NextMap, Pack and Allocate; Allocate
-- takes scavengers of blocked threads by Realloc, and of the pool. Cleanup calls Schedule again and
-- again. Wrappers calls Init and Thread, and Thread calls Allocate.
--
-- Numbers are natural numbers; `short` is an integer that wraps at 16 bits (to_short), and its
-- conversion to an unsigned 64-bit number wraps too (to_size). An index of -1 is `none`. Loops are
-- recursion on their number of rounds. The run of a cleanup has fuel: 130 switches, which is enough
-- for at most 128 scavengers, the end and the second pass of setjmp.
--
-- The loader, the word expansion, the linker's addresses and the code of the scavengers are the
-- parameter Loader. An operation under the lock scav_table_lock, or on a context whose flag is held,
-- is one step. PRIM_TABLE and SCAV_TABLE are functions of any index; the loading of the pool says what
-- happens at an index past the end, and the other operations do not.
--
-- The pool file is the list of its lines as fgets gives them, and pthread's own functions, with what
-- other threads do while they block, are arguments. In Apps.Template the thread that pthread_create
-- starts runs while the main thread waits for it.
--
-- rand, atoi, stoull, the time stamp counter and whether malloc, mmap and pthread_create succeed are
-- arguments of the sample programs.
-- Their loops with fuel have enough of it: one round for each node, and one for each repetition.
--
-- In Runtime a call of a thread is one step, and every thread that calls has a context. The cleanup is
-- the last that a thread does there: what the first thread calls after the one in its pthread_join is
-- not a step. While a thread cleans up, the steps do not say in which order it goes on from `setjmp`
-- and gets scavengers back; the runs of Cleanup do. The write that tl_swap_crts makes in front of
-- SCAV_TABLE is counted in the World and is no fault. Handshake has the accesses to a flag as steps of
-- their own, for threads with a context and for those that share the flag `dummy`.
--
-- Not modelled: the writes to /dev/cpu_dma_latency, output, and the time that anything takes; the time
-- stamp counter is an argument. msh_bolt.diff and profile/ are not part of libmsh.
pub mod Prelude
pub mod Memory
pub mod IdxList
pub mod NextMap
pub mod Hosting
pub mod Symbols
pub mod Pack
pub mod Finish
pub mod Realloc
pub mod Allocate
pub mod Stack
pub mod Schedule
pub mod Cleanup
pub mod Init
pub mod Thread
pub mod Spinlock
pub mod Handshake
pub mod Wrappers
pub mod Runtime
pub mod Apps
pub mod Tests
