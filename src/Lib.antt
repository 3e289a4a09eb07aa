-- ===== src/Lib.antt =====
-- A model of yaay-rs, an asynchronous runtime for Rust.
--
-- The program has two crates of logic. yaay-mt-runtime is a multi-threaded executor: a task
-- (task.rs) wraps a future with a status byte and a reference count; runnable tasks are linked into
-- the local queues of the workers (task_list.rs); a worker (worker.rs) drains its queue, steals from
-- the others, and sleeps and wakes by one status word (epoch.rs). yaay-mio is the reactor: a
-- dispatcher (dispatcher.rs) hands readiness events to the waker of a task.
--
-- Files, and the code that they model (paths from the root of the repository):
-- Word: `u32` arithmetic and the laws of its bit operations.
-- Rng: yaay-mt-runtime/src/rng.rs; the time that the clock shows is an argument.
-- Task/Status, Task/Heap: the status bits, `Task::new` and the accessors of
--   yaay-mt-runtime/src/task.rs, over an explicit heap. The status is a record of three bits, and
--   Task/Bytes relates it to the byte.
-- Task/Contract: what a task promises, as a state machine that Task/Protocol implements.
-- Task/Protocol: `wake`, `poll`, `drop_in_place`, `rc_inc`, `rc_dec` of task.rs and the waker of
--   yaay-mt-runtime/src/task_waker.rs, as moves of any number of threads over one task, an atomic
--   access at a time. A queue is the number of times that it links the task.
-- TaskList: yaay-mt-runtime/src/task_list.rs, `TaskList`, on the heap of tasks; `drain` is the `for`
--   loop over a list. The mutex of `SyncTaskList` is taken to make each operation one step.
-- Epoch: yaay-mt-runtime/src/epoch.rs, the operations on the status word.
-- Scheduler: `Worker::main_loop` of yaay-mt-runtime/src/worker.rs for all workers, over the word of
--   Epoch, with `park` and `unpark_all` of parking_lot_core taken as documented: `park` validates and
--   sleeps in one step, and `unpark_all` ends every sleep. A queue is the number of its tasks.
-- Shared: `RuntimeSharedData`, the heap, the queues of all workers and the status word, and the
--   operations of yaay-mt-runtime/src/task_list.rs under the lock of one queue. `View` says that the
--   queues hold given sequences of tasks.
-- Worker: `other_workers` of yaay-mt-runtime/src/worker_manager.rs, and `spawn`, `defer`, `rng_gen` and
--   `try_steal` of worker.rs, one call at a time.
-- Batch: `BatchGuard::push_batch` of yaay-mt-runtime/src/batch.rs, on the local lists of one thread and
--   the queues of all workers.
-- Wake: `Task::wake` of task.rs as one call on the queues, in each state of the thread's pointer LOCAL,
--   and `BatchGuard::new` and its drop of batch.rs.
-- Entry: `spawn`, `defer` and `shutdown_async` of yaay-mt-runtime/src/runtime.rs as calls on the queues.
-- Shutdown: `MTRuntime::shutdown_async` of yaay-mt-runtime/src/runtime.rs, the future `Shutdown` and
--   `main_loop` of worker.rs as far as it handles `Shutdown` tasks, all threads interleaved.
-- Startup: `WorkerManager::wait` and `WorkerBuilder::build` of worker_manager.rs, all threads
--   interleaved, with the condition variables as steps.
-- Memory: yaay-mt-runtime/src/mem.rs, on a memory in which `alloc` has found an address.
-- Teardown: `WorkerGuard::run` and the drop of a `WorkerGuard` of worker_manager.rs, with `rc_dec` and
--   `drop_in_place` of task.rs. A future is known by the wakers that it holds.
-- Dispatcher: `Dispatcher` and `DispatcherInner::notify` of yaay-mio/src/dispatcher.rs, in the loop of
--   `io_poll` (macros.rs) and the reactor's loop (shared.rs). The kernel and mio are taken as
--   documented: a call blocks only if the source is not ready, and a source that becomes ready has an
--   event.
-- Reactors: the start of the reactor threads in `GlobalData::build` of yaay-mio/src/shared.rs, all threads
--   interleaved; Reactors/Quit is their end by `mio_shutdown` of yaay-mio/src/prelude.rs.
-- Handles: the handles of yaay-mio/src/container.rs as functions on the data of all reactor threads, with
--   `connect` and `bind` of yaay-mio/src/net; the key that `Slab::insert` returns, and whether mio accepts
--   a registration, are arguments.
-- RuntimeApi: the methods of the trait in yaay-runtime-api/src/lib.rs that yaay-mio calls, with their laws, as
--   an interface; MtRuntime is what yaay-mt-runtime/src/runtime.rs puts in its place.
-- EventLoop: a round of the event loop in `GlobalData::build` of yaay-mio/src/shared.rs, and the reactor
--   thread from its batch guard to its end, with `notify` of
--   dispatcher.rs, on the slots of Registry and the local lists of Wake, for any runtime that has the
--   laws of RuntimeApi.
-- Registry: the slots of one reactor thread (yaay-mio/src/shared.rs), the handles and cells of
--   yaay-mio/src/container.rs, and `new_from_waker` and `del` of dispatcher.rs, a critical section at a
--   time. `Slab` of the crate slab is taken as documented: `insert` returns a vacant key.
-- ConcurrentWakeup: the program yaay-tests/src/concurrent_wakeup.rs, on a task of Task/Contract.
-- PingPong: the program yaay-tests/src/mio_ping_pong.rs, whose calls of one byte are steps.
-- Io: the loop of `io_poll` (macros.rs), and the methods of yaay-mio/src/net/tcp_stream.rs and
--   tcp_listener.rs that it makes up, given the calls of std and mio.
--
-- Bounds and fuel. `io_poll` takes fuel, and more than the number of waits is enough. So
-- does the loop of a reactor thread, and more than the number of rounds is enough. `drain` and
-- `teardown` take fuel, and more than the number of tasks is enough. In Scheduler the unit of time is the
-- shortest time that a `fetch_add(EPOCH)` takes, and its theorems ask that MAX_DURATION has
-- fewer than 2 ^ 23 units, which is what the comment of `Epoch` hopes for. A count of references stays
-- below 2 ^ 64, since a waker takes memory.
--
-- Not modelled: `run_with` as a whole, whose parts are in Startup, Teardown and Shutdown; the futures
-- themselves, the vtables and the allocator (what a task does is left open, an address is an argument); memory orders weaker than SeqCst; the programs of
-- yaay-tests but concurrent_wakeup.rs and mio_ping_pong.rs; the two global pointers of each crate, which
-- are what the definitions take as arguments.
pub mod Base
pub mod Word
pub mod Rng
pub mod Task
pub mod TaskList
pub mod Epoch
pub mod Shared
pub mod Worker
pub mod Scheduler
pub mod Dispatcher
pub mod Batch
pub mod Teardown
pub mod ConcurrentWakeup
pub mod Entry
pub mod EventLoop
pub mod Handles
pub mod Io
pub mod Memory
pub mod PingPong
pub mod Reactors
pub mod Registry
pub mod RuntimeApi
pub mod Shutdown
pub mod Startup
pub mod Wake
