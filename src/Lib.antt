-- ===== src/Lib.antt =====
-- ratehub: a pipeline of processes around one shared mapping. The ingest process reads 38-byte frames
-- from a file, decodes them and pushes the records into a ring; the compute process integrates each
-- record into its private table, publishes the row through a seqlock per source, copies the rows into
-- windows, and publishes a snapshot of the windows through a triple buffer; the publish process writes
-- the snapshot out. The observer collects counters and positions from the mapping, serves them to one
-- browser as a stream of events, and passes a request for another run on. The supervisor starts the
-- processes, restarts compute, and reports one status.
--
--   Prelude        names of the libraries, tests on numbers, lists, integers, words and bits
--   Types          include/ratehub/types.hpp: bounds, `Record`, result codes
--   Frame          src/frame.cpp: `encode_frame`, `decode_frame`, `frame_crc` and their helpers
--   Fleet          src/fleet.cpp, include/ratehub/fleet.hpp: `FleetSoA`, `step`, `integrate`
--   Circular       runs of slots in a circular buffer, for the ring and the queue
--   SpscRing       include/ratehub/spsc_ring.hpp
--   TripleBuffer   include/ratehub/triple_buffer.hpp
--   Seqlock        include/ratehub/seqlock.hpp
--   BoundedQueue   include/ratehub/bounded_queue.hpp
--   Pace           include/ratehub/pace.hpp, and the pacing of src/compute.cpp
--   Layout         include/ratehub/layout.hpp, shm_control.hpp, supervisor_state.hpp
--   Supervisor     src/supervisor.cpp: `reset_control`, `run_once_pipeline`, `run_supervisor`
--   Compute        src/compute.cpp: the drain loop, `publish_windows`, the snapshot, the watchdog;
--                  Stages interleaves the working threads
--   Ingest         src/ingest.cpp: the two threads, over BoundedQueue, Frame and SpscRing
--   Publish        src/publish.cpp: the wait for a snapshot, step by step in Waiting, over every attempt of
--                  the compute process, and the rows of the file
--   Pipeline       the ingest, compute and publish processes together, as `run_once_pipeline` of
--                  src/supervisor.cpp starts them, with one attempt of the compute process
--   Shm            src/shm_region.cpp, include/ratehub/shm_region.hpp
--   Http           src/http_sse.cpp, include/ratehub/http_sse.hpp: Conn sends and reads, Request
--                  routes, Reply answers, Server listens and takes turns
--   Telemetry      src/telemetry.cpp, include/ratehub/telemetry.hpp
--   Observe        src/observe.cpp, over Shm, Telemetry and Http
--   Launch         src/main.cpp, and `spawn_child` of src/supervisor.cpp
--   Replay         tools/make_replay.cpp
--   Roles          include/ratehub/roles.hpp: the ingest, compute and publish processes from their start to
--                  their exit status
--   Bench          src/bench.cpp
--
-- Values. Unsigned words are natural numbers with their wrap written out, signed ones are integers, and
-- the ranges are theorems. A struct is a record, an array the list of its values, a pointer into a
-- buffer an offset. A method that changes its object returns the new object beside its result; an
-- output argument is a component of the result.
--
-- Concurrency. For the ring, the triple buffer and the seqlock there are two models. One runs a whole
-- operation with nothing in between. The other, in the modules named Threads, interleaves two threads at
-- each access of shared memory, as a step relation, and its theorems hold in every reachable state. The
-- accesses are taken in one order: the acquire and release orders and the fences of the source are not
-- modelled beyond that. Ghost fields count or remember what the theorems speak of, and no step reads
-- them. The queue's calls hold a mutex and are single steps. Ingest, Compute.Stages and Publish.Waiting
-- interleave the threads of a process with what the other processes do: whole calls on the queue, the
-- ring and the seqlocks, single accesses to the triple buffer. Pipeline puts the three relations
-- together: a step of one part, on what the parts share. Its theorems come from theirs, since each part
-- of a run of the pipeline is a run of that part.
--
-- Parameters. `Compute.Memcpy` is `memcpy` between a trivially copyable state and the words of a seqlock,
-- with its round trip. `atoi` of Launch is the C library's. `Supervisor.Children` is what the system
-- reports of the child processes, and what they do to the mapping meanwhile, and
-- `Supervisor.Runs.ObserverChild` the same of the observer; `threads` of Roles is what the layout has
-- become when the threads of a process join. What the calls on sockets, files and shared
-- objects return is data: a connection is a list of turns, in order, and a round of a loop is a record of
-- results. An open descriptor is an entry of a list, which each open adds and each close takes away.
--
-- Bounds. The ring's capacity is `2 ^ k` with `k < 32`; the mapping's is `2 ^ 10`. The drain loop runs on
-- fuel, and more fuel than waiting records is enough. A load of the seqlock makes 64 attempts, and the
-- supervisor three, as in the source.
--
-- Not modelled: alignment, cache lines and the passing of time have no counterpart. The heartbeats of the
-- working threads, which only the watchdog reads, are left out of Compute.Stages; the watchdog takes them
-- as an argument.
pub mod Prelude
pub mod Types
pub mod Frame
pub mod Fleet
pub mod Circular
pub mod SpscRing
pub mod TripleBuffer
pub mod Seqlock
pub mod BoundedQueue
pub mod Pace
pub mod Layout
pub mod Supervisor
pub mod Compute
pub mod Ingest
pub mod Publish
pub mod Pipeline
pub mod Shm
pub mod Http
pub mod Telemetry
pub mod Observe
pub mod Launch
pub mod Replay
pub mod Roles
pub mod Bench
