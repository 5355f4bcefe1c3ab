-- ===== src/Lib.antt =====
-- Async-DuckDB: an asynchronous wrapper of DuckDB, and the parts of the DelegateMQ library in the
-- repository that it is built from. This is what its parts do and why that is right.
--
-- Parts, and the files that model them:
--   Semaphore: DelegateMQ/delegate/Semaphore.h, on which a synchronous caller waits.
--   Thread: DelegateMQ/port/os/stdlib/Thread.cpp, Thread.h and ThreadMsg.h, the worker with its two
--     queues. Thread/Process is the loop `Process`, Thread/Drain `ExitThread`; Thread/History,
--     Thread/Fifo and Thread/Bounds are about the queues, and Thread/Watchdog is the list of watched
--     threads.
--   Async: DuckDB/async_duckdb.cpp. Async/Task has what tasks share, Async/Dispatch the functions
--     `DispatchTask`, `RunAsync`, `RunSync`, `init_worker` and `shutdown_worker`. Async/Proxy has the
--     lambdas that the proxies of async_duckdb.hpp send to the worker, Async/Proxy/Objects the
--     methods. The other children are proofs: Async/Answer, Async/Future, Async/Unserved and
--     Async/Lifecycle about the core, Async/Proxy/Laws, Appending and Binding about the proxies.
--   Timer: DelegateMQ/extras/util/Timer.cpp. Signal: DelegateMQ/delegate/Signal.h. Multicast:
--     DelegateMQ/delegate/MulticastDelegate.h. AsyncWait: DelegateMQ/delegate/DelegateAsyncWait.h.
--   Guard: DelegateMQ/extras/util/MonotonicGuard.h.
--   Allocator: DelegateMQ/extras/allocator/Allocator.cpp, its blocks and counters.
--     Allocator/Xallocator is extras/allocator/xallocator.cpp, with proofs below it.
--   DataBus: DelegateMQ/extras/databus. DataBus/Bus has the state, DataBus/Publish and
--     DataBus/Registry the operations of DataBus.h, DataBus/Limiter its QoS, DataBus/Latch the errors
--     that are reported once, DataBus/Participant and DataBus/History Participant.h. DataBus/Typed is
--     about its casts, DataBus/Delivery compares it with a list of subscriptions, and DataBus/LastValue
--     is about the last value cache.
--   Crc: DelegateMQ/extras/util/crc16.h; Crc/Entries and Crc/Equivalence compare its two versions.
--   Framing: DelegateMQ/port/transport, the bytes of a message (DmqHeader.h). Framing/Serial is
--     serial/SerialTransport.h, with the port's reads as Framing/Port states them, and Framing/Ring and
--     Framing/Uart are stm32-uart/Stm32UartTransport.h. Their children are proofs.
--   Reliable: DelegateMQ/extras/util/TransportMonitor.h, and Reliable/Retry RetryMonitor.h and
--     ReliableTransport.h.
--   Common: the names that all share, Boolean tests, lists and maps.
--
-- How the parts interact: a proxy's method makes a task; `RunSync` and `RunAsync` wrap it so that its
-- outcome goes to a slot with a semaphore, or to a promise; `DispatchTask` posts it to the worker
-- thread, whose loop takes and runs it. Timers and monitors tell their subscribers by signals. The
-- retry monitor listens to the transport monitor and adds messages to it.
--
-- State is passed explicitly: each function takes the state that its code reads and gives back what
-- it writes. A critical section of a mutex is one step. Names follow the code, in small letters with
-- underscores. An exception, a fault and a null pointer followed are outcomes. Pointers into shared
-- objects are numbers into a function (slots, promises, threads, statements, the blocks of signals).
--
-- Parameters: the engine, DuckDB, is the record `Engine` of Async/Engine, of which only one theorem
-- assumes something, that `Materialize` returns a materialized result. The clock is a function, the
-- physical transport is a function of the packets sent before, the serial port is a function that
-- reads and a state, the UART a function that sends and bursts of bytes that come, and what other
-- threads do during a wait is a function on the state.
--
-- Fuel: `process` of the worker takes one unit a turn, and the theorems on it give it one for each
-- message and one more. `Process` of the transport monitor takes one a pass, and one more than
-- there are entries is enough. The search for the marker takes one for each read, and more than
-- there are bytes to come is enough. A broadcast of the multicast delegate may run for ever, since
-- a target may push another one; a bound is proved for targets that only remove.
--
-- Bounds: sequence numbers of the guard wrap around at 8, 16 or 32 bits, written out as a
-- remainder. The keys of the monitors are two numbers of 16 bits in one of 32. The counters of the
-- allocator wrap around at 32 bits, and `size_t` at 64. Times and sizes are natural numbers; a
-- difference of times stops at 0 where the code only compares it to a positive limit.
--
-- Not modelled: DuckDB, the remote and network layers, serialization, the other transports and the
-- ports to other systems; delegates as objects with their memory; a thread that exits itself; a
-- handler for `new` while the allocator runs; callbacks of the data bus that call it.
pub mod Common
pub mod Semaphore
pub mod Thread
pub mod Async
pub mod Framing
pub mod Guard
pub mod Signal
pub mod Reliable
pub mod Timer
pub mod Multicast
pub mod AsyncWait
pub mod Crc
pub mod Allocator
pub mod DataBus
