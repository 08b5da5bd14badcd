-- ===== src/Collectors/Ollama/Laps.antt =====
-- The rest of a time around `PollLoop` of apps/host_agent/src/collectors/ollama_runtime_collector.cpp,
-- behind `PollOnce`; that of `PushLoop` of core/snapshot_pusher.cpp is the same, behind `PushOnce`.
use capacity_agent.Base.{
  ℕ, suc, ◌+◌, ◌-◌, ◌*◌, ◌/◌, ◌<◌, ◌≡◌, refl, Bool, true, Bool-cases, inl, inr, ltb, Option, some,
  List, [], if◌then◌else◌, arith,
}
use capacity_agent.Collectors.Ollama.{sleep_chunks}
use capacity_agent.Collectors.Ollama.Waits.{sum, sleep_chunks-IsWait}

-- The milliseconds of `target - elapsed`, two times in nanoseconds.
abbrev pub remaining_ms : ℕ → ℕ → ℕ
remaining_ms target elapsed = (target - elapsed) / 1000000

-- What is slept, on fuel of one round more than there are milliseconds.
unfoldable pub rest_of_lap : (ℕ → Bool) → ℕ → ℕ → Option (List ℕ)
unfolding sleep_chunks
rest_of_lap running target elapsed =
    let slept =
      sleep_chunks (suc (remaining_ms target elapsed)) running 0 (remaining_ms target elapsed) in
    if ltb elapsed target then slept else some []

-- A time around the loop ends, and where the flag stays set, it takes longer than the interval less one
-- millisecond.
pub rest_of_lap-long :
    (running : ℕ → Bool) (target elapsed : ℕ)
    → (chunks : List ℕ) × (rest_of_lap running target elapsed ≡ some chunks)
      × (((j : ℕ) → running j ≡ true) → target < elapsed + sum chunks * 1000000 + 1000000)
unfolding rest_of_lap
rest_of_lap-long running target elapsed = elim (Bool-cases (ltb elapsed target)) [
  | inl e ↦
      let ms = remaining_ms target elapsed in
      let w = sleep_chunks-IsWait (suc ms) running 0 ms (omega arith) in
      (w.0, rw e w.1, λ h. let total = w.2.total h in omega arith)
  | inr e ↦ ([], rw e refl, λ h. ground arith)
]
