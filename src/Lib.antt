-- ===== src/Lib.antt =====
-- nvshare lets several processes share one GPU. A daemon (src/scheduler.c) holds one lock; a
-- library that is preloaded into every CUDA process (src/hook.c, src/client.c) stands between
-- the process and the CUDA driver and lets work through only while the process has the lock; a
-- command (src/cli.c) changes the daemon's time quantum and turns its scheduling on and off.
-- They exchange messages of one size over Unix sockets (src/comm.c, src/common.c).
--
-- Prelude: tests and lists over the native numbers, signed integers, and `Outcome`, how a call
-- ends: it returns, the process exits (`log_fatal`, `true_or_exit`), it follows a pointer that
-- is NULL or to a client that is not in the list (`fault`), or the bound of the model is spent
-- (`spinning`). `delete_client` also reads a client's block after it has freed it: that read is
-- no `fault` in the model, but gives any number, and where a statement needs it, IsBenign in
-- Scheduler/Invariant/Defs says that the number is no other client's descriptor.
-- Common: src/common.c and src/common.h. Strings has `strlcpy`, Transfer `RETRY_INTR`,
-- `write_whole` and `read_whole`, Clock `timespecsub`.
-- Comm: src/comm.c and src/comm.h. Messages has the message types and the struct, Ids and
-- Numbers the texts that go into a message and out of it, Sockets the connections, Layout the
-- 537 bytes of the packed struct on a machine whose words start at the low byte; what the kernel
-- answers to the system calls is a parameter.
-- Scheduler: src/scheduler.c. State has the global variables and what the environment answers,
-- Sending `send_message` and `receive_message`, Clients the lists (`insert_req`, `remove_req`,
-- `delete_client`, `bcast_status`, `register_client`), Schedule `try_schedule` and the timer
-- thread, Dispatch `process_msg` and one event of epoll, Main the calls before the loop of
-- `main`, its loop over batches, and both threads together. Lists has lemmas on the lists,
-- Invariant the invariant with a file for each group of operations, Policy who gets the lock and
-- when, Missed how the timer can miss a change of hands; Main/Freed is about events that come
-- too late for their client. Protocol is what the scheduler promises, a queue for one lock with
-- the messages that go with it, and Refinement relates the handlers to it, with a file for each
-- group of them; Asking says when the timer asks for the lock. Fairness is about the order in
-- which clients wait. The timer thread and the main thread take turns at the mutex, so a run is
-- a sequence of events and wake-ups.
-- Client: src/client.c. State has the global variables with a log of the messages, Start
-- `initialize_client` and `client_fn` up to its loop, Locking `continue_with_lock`, Listening
-- the loop of `client_fn`, EarlyRelease `release_early_fn`. Threads take turns at
-- `global_mutex`; a run is a sequence of turns (`Reach` in Invariant, with a file for the start
-- and one for the turns). Policy and Idling are about when the lock is given back, Registering
-- what a client registers with. Gate has the application's threads, each with its place in the
-- program: in no hook, in `pthread_cond_wait` inside `continue_with_lock`, woken up, or behind
-- it with the driver's function still to be called (src/hook.c); Waking is about the threads
-- that wait, Submission about those that have passed.
-- Hook: src/hook.c. Allocations has the list of allocations, Bag what it stands for without its
-- order, both for one call at a time, since the source takes no mutex there; Memory
-- `cuMemAlloc`, `cuMemFree` and `cuMemGetInfo`, Window `cuLaunchKernel` with its rate control
-- and the eight `cuMemcpy` functions, Symbols `dlsym`, `cuGetProcAddress` and `bootstrap_cuda`
-- by the names that src/cuda_defs.h makes, with lemmas on them in Lookup, Entry the way in
-- (`initialize_libnvshare`, `cuInit`, `pthread_once`, the real `dlsym`), with what it leaves in
-- Ready.
-- Cli: src/cli.c. Effects joins it to the scheduler.
-- System: the scheduler, its clients and the calls of `nvsharectl` together. A connection keeps
-- the messages on their way in order; it is the model's own, since sockets are the kernel's. A
-- step is an event of the scheduler, a wake-up of its timer, or a turn of one client. That no
-- grant is doubled: Balance counts the grants against the protocol's lock, Turns, Credit and
-- Lessening what a client's turn does to them, Joining what a new connection does, Soundness is
-- about every step. That none is lost: Covering, Saving and Keeping, Covered and Admission,
-- Steadiness, in the same order. Exclusion is about the states that are reached, Waiting about
-- those in which clients wait, Preemption about the end of a quantum, Registration about what
-- the scheduler and a new client know of each other. What is assumed of the kernel and the C
-- library at each step is IsFair in Soundness: a new connection has a descriptor of its own,
-- events are of connections that are open, what `delete_client` reads from a freed block is not
-- another client's descriptor, and an acceptable identifier can be drawn. All of it is under the
-- condition that nobody sends SCHED_OFF; Tests has a run that shows what happens otherwise. A
-- process whose connection the scheduler has closed goes on until it notices, and no statement
-- is about it. The modules named Tests run the definitions on concrete inputs.
--
-- Bounds. A pointer to a client of the scheduler is the descriptor of its connection. `try_loop`
-- has one more unit of fuel than there are requests, since every turn but the last removes one.
-- `draw_id` has as many draws as `World` allows; it is spinning only when none of them is
-- acceptable. `write_whole` and `read_whole` take one answer of the kernel for each call. Words
-- of 64 and 32 bits wrap around where the source's do.
--
-- Not modelled: the copies of other projects (src/snprintf.c, src/utlist.h, src/xopt.c), log
-- lines, the driver's types in src/cuda_defs.h, what the kernel does with epoll, signals and
-- threads, and the driver itself. Handlers get a message with its members; the bytes in between
-- are in Layout for one direction, from the scheduler to a client. The device plugin and the
-- manifests under kubernetes are glue.
pub mod Prelude
pub mod Common
pub mod Comm
pub mod Scheduler
pub mod Client
pub mod Hook
pub mod Cli
pub mod System
