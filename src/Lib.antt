-- ===== src/Lib.antt =====
-- Strix, the engine of a semantic cache: the memory arena, its collector, the similarity of two
-- vectors, the embedder, the two handlers of the gRPC service, and the process that runs them.
--
-- The program. A prompt is turned into a vector, and `CheckCache` compares it with the vectors of
-- the slots of the arena. A slot is one 64-bit control word (state, reference bit, length, offset)
-- beside a birth time. On a hit the payload of the slot is read from a ring of bytes; on a miss a
-- dead slot is claimed, and the client fills it later by `SetCache`, which appends the payload to the
-- ring and publishes the slot. A background thread moves the tail of the ring: it evicts cold slots
-- and copies the payloads of hot ones to the head. All threads meet in the slots' atomics and in the
-- two counters of the ring. `main` makes the arena, warms the embedder up, starts the server, the
-- collector and a thread that waits for the server, sleeps until a signal sets a flag, and then shuts
-- the server down, joins both threads and frees the arena.
--
-- The files.
--   Constant              engine/include/constant.hh
--   Node, Node/           engine/include/node.hh: PackControl, UnpackControl, LoadControl
--   Arena, Arena/         engine/include/arena.hh and engine/src/arena.cc: the constructor,
--                         AllocatePayload (allocate_payload), WritePayload, ReadPayload;
--                         Arena/Queue has the abstract view, a queue of payloads (Holds)
--   Slot, Slot/           the exchanges and stores on a slot's atomics
--   Collector, Collector/ engine/src/arena.cc: RunGarbageCollector; one turn of its loop is
--                         collect_once, with sweep, visit, treat, evict and rescue for its branches;
--                         Collector/Queue, Measure, Progress and Run see it as moves of the queue
--   Float                 the interface of float operations; the platform's arithmetic is no code of
--                         the repository, so it is an instance argument with named laws
--   Similarity            engine/include/avx_math.hh: CosineSimilarity, both variants
--   Embedder, Embedder/   engine/src/embedder.cc: Encode after the run of the session, and in
--                         Embedder/Instance the constructor, GetInstance of
--                         engine/include/embedder.hh and WarmUpEngine of engine/src/main.cc;
--                         new_aligned_vector is engine/include/raii_vector.hh
--   Message, Result       the messages of api/proto/strix.proto, the statuses and the exceptions
--   CheckCache, CheckCache/  engine/src/service.cc: CheckCache; scan_slots is its loop, answer_best
--                         and claim_slot are what follows it, with_node is the access of a slot;
--                         CheckCache/Rounds shows that all slots accessed are slots of the table
--   SetCache, SetCache/   engine/src/service.cc: SetCache; publish is its exchange loop
--   Engine, Engine/       whole calls and iterations one after the other, on one arena: Step and Reach;
--                         Engine/Again follows one prompt through the handlers
--   Cache, Cache/         what the engine promises, without the ring and the control words: a slot is
--                         free, claimed or filled with a text (Slot), and Checked, Filled and Collected
--                         say what CheckCache, SetCache and an iteration of the collector may reply and
--                         make of the slots; view is the cache that an arena stands for (StandsFor)
--   Process, Process/     engine/src/main.cc: main, RunServer and SignalHandler; main_step is the main
--                         thread, gc_step and grpc_step are the two others, handle is a handler;
--                         Process/Quiet and Sound tie its runs to the engine's
--   Base, Memory          shared helpers: words, lists, bytes
--   Sample, Tests         concrete data, tests and witnesses
--
-- How the code is modelled. A call is a function from an arena to a result and an arena; the result
-- is a value, a C++ exception or a `fault`, which stands for an access outside an allocation. What
-- other threads do is explicit: a loop over a compare-exchange takes a list of turns, each with what
-- the others do before the accesses of that turn, and after the last turn nobody is in the way; the
-- straight code of CheckCache takes a function from the accesses to what the others do right before
-- them. Accesses are sequentially consistent, and a copy of bytes is one step. The sizes are those of
-- the source: a ring of 2 ^ 32 bytes, counters that wrap at 2 ^ 64, offsets that slots keep modulo
-- 2 ^ 37. The arrays are functions of the index; the accesses whose index comes from a request, from
-- the ring or from the scan of CheckCache are checked against the size of the table or of the buffer.
-- SetCache writes its payload before the first access of the slot that the request names. Whether the
-- allocator has memory for the string that ReadPayload fills is an argument: without it the exception
-- is what the handler answers. A call with no other thread in the way (quiet_others, quiet_traffic)
-- is one that has this memory.
-- The process is a state that events move: a turn of a thread, a signal, a call that comes in, the
-- work and return of a handler. A turn of the main thread is one statement, where the two calls of
-- `std::signal` count as one and the making of the service and of the server as one; a turn of the
-- collector is the test of its flag and one iteration. The gRPC server is a parameter (Grpc) with four
-- laws of its documentation (IsGrpc): a server that was shut down takes no calls, and `Shutdown` and
-- `Wait` block until all handlers have returned, and no longer. ONNX Runtime, the environment and the
-- allocators are parameters too (Platform), with no laws.
--
-- The cache is the abstract side of the engine. An arena stands for a cache when its ring is a queue
-- of payloads, no slot is migrating, and each ready slot's word leads to a payload of that queue which
-- names the slot and has the length that the word says; dead slots are free and pending ones claimed.
-- The calls and iterations that the cache is compared with are whole ones, one after the other, that
-- return (Step): no call accesses memory outside the arena, and no payload runs past the tail; what
-- other threads do in the midst of one is the subject of the theorems that take their turns or
-- accesses as an argument.
--
-- Bounds and fuel. The scan has L0_MAX_SLOTS rounds. The copy loop of a rescue runs on fuel, one round
-- for each byte of the payload, which is enough because a chunk has at least one byte. The collector's
-- thread runs for a list of rounds, the last of which is the one before it sees the shutdown. A run of
-- the process is a list of events, and a lap is a stretch of it in which every thread has a turn.
--
-- Not modelled: the work of ONNX Runtime and gRPC, which are parameters; that a thread cannot be
-- started; the socket's file, the messages on the console and the length of the sleeps; the generated
-- protobuf and gRPC code, memory orders, the alignment of accesses, the drivers of the tests and of the
-- benchmark, and the gateway.
pub mod Base
pub mod Constant
pub mod Node
pub mod Result
pub mod Memory
pub mod Arena
pub mod Slot
pub mod Collector
pub mod Float
pub mod Similarity
pub mod Embedder
pub mod Message
pub mod CheckCache
pub mod SetCache
pub mod Engine
pub mod Cache
pub mod Process
pub mod Sample
pub mod Tests
