-- ===== src/Lib.antt =====
-- The shared-memory core of arax, modelled and verified: the C code under src/ and its headers.
--
-- Processes that use accelerators share one segment of memory, `struct arax_pipe` (include/arax_pipe.h).
-- It holds objects with reference counts: accelerators, virtual accelerators, procedures, data and
-- tasks. A client issues a task into the queue of a virtual accelerator; the controller, written in C++
-- and not modelled, takes it out, runs it and completes it. A throttle bounds the bytes that are handed
-- out, and whoever asks for more than is available sleeps until some are given back.
--
-- Parts, and the files that model them:
--   Queue        src/utils/queue.c: init, used_slots, push, pop, peek of `utils_queue_*`. Queue/Spec is
--                the bounded first-in first-out queue, Queue/Refine relates the two; Queue/Steal is the
--                step relation of the accesses that threads make to one queue.
--   Bitmap       src/utils/bitmap.c: `utils_bitmap_*`. Words are lists of 64 bits, the least significant
--                first; a pointer to a chunk is its index.
--   Pages        src/alloc/dlmalloc/alloc.c: the layout of the pages behind the allocator, `arax_mmap` and
--                `arax_ummap`. Pages/Live is the step relation of the users of mappings.
--   Config       src/utils/config.c: the configuration file, its typed reads and paths (Config/Path), with
--                the parts of the C library that they use (Config/Text, Config/Numbers).
--   Start        src/arch/shm/impl.c: `_arax_init`, `arax_exit` and what they call in src/core/arax_pipe.c;
--                `arax_ptr_valid` of src/core/arax_ptr.c.
--   Spinlock     src/utils/spinlock.h.
--   NodeList     src/utils/list.c: the doubly linked list in a memory of pointers. NodeList/IsList says
--                what list of nodes a head stands for.
--   Kv           src/utils/Kv.c: the array of pairs.
--   Throttle     src/core/arax_throttle.c; Throttle/Waiters is the step relation of the threads that
--                share one.
--   Spin         src/async/spin/async.c: completions, semaphores and conditions; Spin/Exclusion is the
--                step relation of the threads that share a condition.
--   ProcMap      src/core/arax_pipe.c: the processes that have the segment mapped.
--   AccelTypes   src/core/arax_accel_types.c: names of accelerator types.
--   Core         the segment with its objects. Core/World holds the structures of src/core/*.h as
--                records and the state that the calls pass on; a call is a function from a segment to an
--                outcome (Prelude/Outcome): a result and a segment, a failed assertion, a wrong memory
--                access, a wait, or used-up fuel. Core/Object is arax_object.c, Core/Create the `_init`
--                functions, Core/Release the destructors and `arax_object_ref_dec` with them,
--                Core/Accel, Core/Vaccel, Core/Proc, Core/Data and Core/Task the files of those names,
--                Core/Exchange the calls of arax_data.c that issue tasks, in two parts where they wait,
--                and the searches for the data of an address, which attach threads by `arax_ptr_valid` of
--                Start (the word before a buffer is a parameter), Core/Orphans and Core/Lookup
--                parts of arax_pipe.c; the calls on tasks and procedures of src/arch/shm/impl.c stand
--                beside them, and Core/Listing has those that list and acquire accelerators. Core/System
--                makes the calls a step relation on segments.
--   Prelude      Boolean tests, lists and outcomes that the parts share.
--
-- An object is found by its address. The allocator under the segment is third-party code, a parameter
-- (`Platform.allocate`), as are the sizes of the C structures; `Serves` says that it does not refuse.
-- A section under one lock is one step. A wait of a single thread is the outcome `blocked`; where a
-- theorem is about waiting, the other threads' steps are in a relation. Unsigned numbers keep their
-- wrap-around, written out; `int` counts are their 32-bit patterns with the signed tests spelled out.
-- A destructor drops further references, so Core/Release runs on fuel: a task leads to data, data to an
-- accelerator, a physical one to the virtual one of its frees. The theorems hold for any fuel above
-- zero, or any at all. The loops of the other parts recurse on the data that they walk. `to_array` walks
-- on fuel, one more than the length of the list.
--
-- `look_up` of Config reads on fuel, one round for each byte of the file and one for its end, which
-- Config/Scan proves enough.
--
-- Not modelled: the conditions of src/async/mutex and src/async/ivshmem, which stand on pthreads and
-- doorbells; the bytes in the buffers of data; dlmalloc and TLSF, which are third-party code; the
-- controller, viewers, bindings and tools, which are in other languages.
pub mod Prelude
pub mod Queue
pub mod Bitmap
pub mod Config
pub mod Pages
pub mod ProcMap
pub mod Kv
pub mod Throttle
pub mod Spin
pub mod Spinlock
pub mod Start
pub mod AccelTypes
pub mod NodeList
pub mod Core
