-- ===== src/Examples/Polls.antt =====
-- A round of the GPU collector.
use capacity_agent.Base.{ℕ, ◌≡◌, refl, Bool, false, some, List, [], ◌∷◌, Text, codes}
use capacity_agent.Base.Int.{pos}
use capacity_agent.Gpu.Snapshot.{GpuSnapshot, empty_snapshot}
use capacity_agent.Collectors.{vram_bytes}

abbrev pub snapshot : GpuSnapshot ℕ
snapshot = record (empty_snapshot 0) {
  core_c = 60;
  clock_graphics_mhz = 2400;
  util_gpu_pct = pos 10;
  vram_used_mb = 2000;
  vram_total_mb = 8000;
  nvml_power_mw = 90000;
}

abbrev pub fails_never : ℕ → Bool
fails_never n = false

pub fails_never-healthy : (n : ℕ) → fails_never n ≡ false
fails_never-healthy n = refl

abbrev names : List Text
names = codes "RTX" ∷ []

eight_gib : vram_bytes 8192 ≡ some (pos 8589934592)
unfolding vram_bytes
eight_gib = refl
