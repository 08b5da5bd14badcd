-- ===== src/Lib.antt =====
-- The host agent of capacity-agent (apps/host_agent) and its GPU telemetry library (libs/gpu_telemetry),
-- modelled and verified.
--
-- The agent receives lines of JSON from a hardware bridge over a named pipe, parses them, stores them
-- in SQLite, and answers questions about the machine over HTTP. The parts and their files:
--   Base       shared names, integers, texts as lists of bytes, and the interface of `double`.
--   Bridge     apps/host_agent/src/core/bridge_message_parser.cpp: Calendar (`DaysFromCivil`), Timestamp
--              (`ParseIso8601UtcMs`), Messages (model/bridge_messages.h), Parser (`ParseBridgeMessage`).
--   Pipe       apps/host_agent/src/ipc/named_pipe_server_win32.cpp: `Run` and `DispatchCompleteLines`.
--   Store      apps/host_agent/src/storage/sqlite_store.cpp over sql/schema.sql: Json (the texts of
--              `extra_json`), Tables and Statements (the tables and each INSERT), Connection (`Statement`,
--              `Transaction`, `OpenIfNeeded`), Bindings (the parameters of each INSERT), Writes (the functions
--              that write), Queries (those that read), Rows (the structs that they give), Snapshot
--              (`QueryLatestSnapshot`), Opening (`EnsureSchema`, `Close`), Threads (the connection that threads
--              share); Effects and Persist say what a message does to the tables; Atomic, Transaction, Healthy, Timeline, Consistent,
--              Direct, RuntimeSamples and LatestGpus hold proofs.
--   Api        apps/host_agent/src/api/http_server.cpp: what /v1/history and /v1/readiness decide; Json
--              (include/host_agent/api/json_response.h), Documents (/v1/status, /v1/catalog and the document
--              of /v1/history) and Snapshots (/v1/snapshot and the document of /v1/readiness); Trees, Shapes
--              and Contracts say which members a document has; Verdicts and History hold proofs.
--   Gpu        libs/gpu_telemetry: Snapshot (`GpuSnapshot`), Driver (what the driver's libraries offer),
--              NvmlLoader and NvapiLoader (the loaders), Calls (what they take and give back), Thermals and Fans
--              (nvapi_thermals_core.cpp, nvapi_fans_core.cpp), Contexts, Probe, Samples and Discovery
--              (gpu_probe.cpp: `Impl`, the polling helpers, the rate-limited samples, `init`), Reader
--              (gpu_sensor_reader.cpp) with Moves (its construction, moves and destruction) and Lifetimes (two
--              readers over time), Copies and Capi (gpu_telemetry_c.cpp).
--   Collectors apps/host_agent/src/collectors: a round of `PollLoop` of direct_gpu_collector.cpp; Loops, its
--              `Initialize`, `PollLoop` and `Stop`; Ollama, `PollOnce` and the waiting of
--              ollama_runtime_collector.cpp; Reports, what both report; Rounds and Latest hold proofs.
--   Pusher     apps/host_agent/src/core/snapshot_pusher.cpp: `ParseUrl`; Pushes, `PushOnce`; Loop,
--              `PushLoop`; Urls and Delivery hold proofs.
--   CommandLine apps/host_agent/src/main.cpp: the settings and the arguments.
--   Service    apps/host_agent/src/core/service.cpp: `HandlePipeMessage`; Ingest, the thread of the pipe, from
--              the bytes of the clients to the tables; Lifecycle, the start of the parts, and the end of
--              `Run` and `Stop` as steps of threads that take turns; Process, `wmain` of src/main.cpp up to
--              the service and the handler of Ctrl-C.
--   Examples   the theorems at concrete inputs, and runs of the definitions.
-- The reader samples the GPUs through the probe, the GPU collector stores its snapshots, the Ollama
-- collector stores the totals of the models that are loaded. The pipe hands its lines to the service, the
-- service hands the parsed messages to the store, and the API reads the tables that the store has written.
-- The pipe's thread and those of the collectors share the store's connection: a turn of a thread is one
-- statement, and the turns come in any order.
--
-- Functions keep the source's names in snake case. A function of the source that returns false and an
-- error text has a `Result`; one that works on the database is an `Action`: it takes a connection and
-- returns its Boolean and the connection afterwards.
--
-- What is not in the source is a parameter. `CJson` holds the functions and fields of cJSON that the
-- parser uses, `CJsonWriter` those that the API writes with, and `WriterLaws` says of these that a member
-- is added behind the others with the value that it was given. `fails : ℕ → Bool` says which calls of
-- SQLite go wrong, for whatever reason; a call that goes wrong changes no table, and BEGIN is refused
-- inside a transaction. `Doubles` is the arithmetic of `double`; where it is only stored, its type is a
-- parameter. `stoi`, `stoll` and the clock are
-- arguments. The results of the Windows calls are lists of events. The functions of NVAPI and NVML are given
-- by the tables `NvApi` and `Nvml`, each entry possibly missing; they take the moment of the call, so that they may
-- answer differently each time. HTTP requests and `strtoul` are functions.
--
-- Texts have no zero byte. An `int` or `std::int64_t` is an integer without bounds, and theorems on
-- bounds say where that is harmless; the `unsigned` arithmetic of `DaysFromCivil` wraps around at 2 ^ 32.
-- `dispatch_lines` runs on fuel: one round more than there are bytes, and each round erases a newline.
-- `to_string` runs on fuel too: a number has no more digits than its value plus one. `sleep_chunks` takes
-- more fuel than there are milliseconds to wait, and each round waits for one at least.
--
-- Not modelled: logging; the server of httplib, and requests of the API that run while a message is being
-- stored; what the parts' threads do while they are stopped, and whether they end: the pipe's may wait for a
-- client; a Ctrl-C before the service waits; the tables and views of the schema that no code uses;
-- third_party, the C# bridge and the scripts.
pub mod Base
pub mod Bridge
pub mod Pipe
pub mod Store
pub mod Api
pub mod Gpu
pub mod Collectors
pub mod Pusher
pub mod CommandLine
pub mod Service
pub mod Examples
