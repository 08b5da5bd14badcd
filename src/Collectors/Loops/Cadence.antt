-- ===== src/Collectors/Loops/Cadence.antt =====
-- The times at which `DirectGpuCollector::PollLoop` starts its rounds.
use capacity_agent.Base.{ℕ, ◌+◌, ◌≤◌, Bool, Bool-cases, inl, inr, List, [], ◌∷◌, Text, arith}
use capacity_agent.Base.Double.{Doubles}
use capacity_agent.Store.Connection.{Conn}
use capacity_agent.Gpu.Reader.{GpuSensorReader}
use capacity_agent.Gpu.Samples.Spacing.{Spaced}
use capacity_agent.Collectors.Loops.{Lap, pause, poll_loop}

pause_lem : (target elapsed : ℕ) → target ≤ elapsed + pause target elapsed
unfolding pause
pause_lem target elapsed = ground arith

-- Whatever the rounds take and however late the thread is woken, no two rounds of the collector start less
-- than its interval apart: a round that takes longer delays the next one and is not made up for.
pub poll_loop-Spaced :
    (d : Doubles) (fails : ℕ → Bool) (machine_id : Text) (target last start : ℕ) (laps : List Lap)
    (r : GpuSensorReader) (c : Conn d.Double)
    → last + target ≤ start
    → Spaced target last (poll_loop d fails machine_id target start laps r c).starts
unfolding poll_loop
poll_loop-Spaced d fails machine_id target last start [] r c h = tt
poll_loop-Spaced d fails machine_id target last start (lap ∷ laps) r c h =
    elim (Bool-cases lap.running) [
      | inl e ↦
          let long_enough = pause_lem target lap.elapsed in
          rw e (h, poll_loop-Spaced d fails machine_id target start _ laps _ _ (omega arith))
      | inr e ↦ rw e tt
    ]
