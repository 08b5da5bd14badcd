-- ===== src/Collectors/Loops.antt =====
-- The life of the two collectors around their rounds: `Initialize`, `PollLoop` and the end of `Stop` of
-- apps/host_agent/src/collectors/direct_gpu_collector.cpp, and `Initialize` of
-- ollama_runtime_collector.cpp. What they print is left out.
pub mod Cadence
pub mod Starts
pub mod Fresh
use capacity_agent.Base.{
  ℕ, ◌+◌, ◌-◌, ◌*◌, Bool, true, false, ltb, Option, none, some, List, [], ◌∷◌, ◌++◌, map, Text,
  codes, if◌then◌else◌,
}
use capacity_agent.Base.Int.{ℤ}
use capacity_agent.Base.Double.{Doubles}
use capacity_agent.Store.Connection.{Conn}
use capacity_agent.Store.Writes.{upsert_collector_health_direct}
use capacity_agent.Gpu.Snapshot.{GpuSnapshot}
use capacity_agent.Gpu.Driver.{NvApi, Nvml}
use capacity_agent.Gpu.Reader.{
  GpuSampleMode, GpuSensorReader, Times, init, shutdown, gpu_infos, sample_all,
}
use capacity_agent.Gpu.Contexts.{GpuInfo}
use capacity_agent.Collectors.{poll_round}
use capacity_agent.Collectors.Ollama.{HostPort, rejected, exception, accepted, parse_host_port}

-- `DirectGpuCollector::Initialize`.
unfoldable pub initialize :
    {D : Type 0}
    → (ℕ → Bool)
    → Text
    → (Text → ℕ)
    → ℕ
    → Option Nvml
    → Option (Option NvApi)
    → ℤ
    → GpuSensorReader
    → Conn D
    → Bool × GpuSensorReader × Conn D
unfolding init
initialize fails machine_id strtoul moment nvml_dll nvapi_dll now r c =
    let (ok, warning, r1) = init strtoul moment nvml_dll nvapi_dll r in
    let reported =
      (upsert_collector_health_direct fails machine_id (codes "direct_gpu") (codes "gpu_poller")
        (codes "error") now (some (codes "init failed: " ++ warning)) c).1 in
    (ok, r1, if ok then c else reported)

-- The end of `DirectGpuCollector::Stop`.
unfoldable pub stop_reader : GpuSensorReader → GpuSensorReader
unfolding shutdown
stop_reader r = if r.initialized then shutdown r else r

abbrev pub initialized_by : HostPort → Option Bool
initialized_by rejected = some false
initialized_by exception = none
initialized_by (accepted host port) = some true

-- `OllamaRuntimeCollector::Initialize`, with none for an exception of `stoi`; what its request is answered
-- with is only printed.
unfoldable pub initialize_ollama : (Text → Option ℤ) → Text → Option Bool
unfolding parse_host_port
initialize_ollama stoi base_url = initialized_by (parse_host_port stoi base_url)

-- One time around the loop: the reading of the flag at its head, the times of the samples, `now_ms`, the
-- nanoseconds from `start` to the reading of the clock behind the round, and those from there to the next
-- `start` beyond what is slept.
pub record Lap : Type 0 where
  pub running : Bool
  pub times : ℕ → Times
  pub now_ms : ℤ
  pub elapsed : ℕ
  pub late : ℕ

abbrev pub nanoseconds : ℕ → ℕ
nanoseconds ms = ms * 1000000

-- What the loop sleeps.
unfoldable pub pause : ℕ → ℕ → ℕ
pause target elapsed = if ltb elapsed target then target - elapsed else 0

-- The times at which rounds started, the reader and the connection.
pub record Polled (D : Type 0) : Type 0 where
  pub starts : List ℕ
  pub reader : GpuSensorReader
  pub conn : Conn D

module _ (d : Doubles) (fails : ℕ → Bool) (machine_id : Text) where
  abbrev pub gpu_names : GpuSensorReader → List Text
  gpu_names r = map (λ (i : GpuInfo). i.name) (gpu_infos r)

  -- The samples of a lap, and the reader behind them.
  abbrev pub samples_of : Lap → GpuSensorReader → List (GpuSnapshot d.Double) × GpuSensorReader
  samples_of lap r = sample_all d lap.times GpuSampleMode.full r

  abbrev pub round : Lap → GpuSensorReader → Conn d.Double → Conn d.Double
  round lap r c =
      let s = samples_of lap r in poll_round d fails machine_id (gpu_names s.1) lap.now_ms s.0 c

  -- `PollLoop`, whose `target` is the interval in nanoseconds.
  unfoldable pub poll_loop : ℕ → ℕ → List Lap → GpuSensorReader → Conn d.Double → Polled d.Double
  unfolding pause sample_all gpu_infos poll_round
  poll_loop target start [] r c = record { starts = []; reader = r; conn = c }
  poll_loop target start (lap ∷ laps) r c =
      let next = start + lap.elapsed + pause target lap.elapsed + lap.late in
      let rest = poll_loop target next laps (samples_of lap r).1 (round lap r c) in
      if lap.running
      then record rest { starts = start ∷ rest.starts }
      else record { starts = []; reader = r; conn = c }
