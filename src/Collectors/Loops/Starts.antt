-- ===== src/Collectors/Loops/Starts.antt =====
-- How `Initialize` of the collectors ends.
use capacity_agent.Base.{ℕ, ◌≡◌, Bool, false, Option, some, ◌++◌, Text, codes}
use capacity_agent.Base.Int.{ℤ}
use capacity_agent.Store.Connection.{Conn}
use capacity_agent.Store.Effects.{put_collector}
use capacity_agent.Store.Direct.{report}
use capacity_agent.Gpu.Driver.{NvApi, Nvml}
use capacity_agent.Gpu.Reader.{GpuSensorReader, init}
use capacity_agent.Collectors.Reports.{db-report}
use capacity_agent.Collectors.Loops.{initialize}

module _ {D : Type 0} (fails : ℕ → Bool) (healthy : (n : ℕ) → fails n ≡ false) (machine_id : Text)
    (strtoul : Text → ℕ) (moment : ℕ) (nvml_dll : Option Nvml) (nvapi_dll : Option (Option NvApi))
    (now : ℤ) (r : GpuSensorReader) (c : Conn D) where
  -- A collector that cannot be initialised is reported as an error, with the warning of the reader.
  db-initialize_error :
      (init strtoul moment nvml_dll nvapi_dll r).0 ≡ false
      → (initialize fails machine_id strtoul moment nvml_dll nvapi_dll now r c).2.db
        ≡ put_collector
            (report machine_id
              (codes "direct_gpu")
              (codes "gpu_poller")
              (codes "error")
              now
              (some (codes "init failed: " ++ (init strtoul moment nvml_dll nvapi_dll r).1)))
            c.db
  unfolding initialize
  db-initialize_error e = rw e (
      db-report fails healthy machine_id (codes "direct_gpu") (codes "gpu_poller") (codes "error")
        now (some (codes "init failed: " ++ (init strtoul moment nvml_dll nvapi_dll r).1)) c)
